-- ===== src/ToAck/Listed.antt =====
-- libxen2mx/omx_lib.h: the mark of a partner and the list that it stands in agree.
use xen2mx.Base.{
  ℕ, ◌≡◌, ◌≢◌, refl, sym, ◌∙◌, subst, List, [], ◌∷◌, ◌++◌, Bool-cases, inl, inr, ==→eq, ==→ne,
  NotIn, Distinct, ◌==◌, update, update_ne, update_self,
}
use xen2mx.Ack.{dequeue}
use xen2mx.ToAck.{NeedAck, delayed, immediate, Partner, Acking}

-- The list holds exactly the partners with this mark, each once.
pub record Lists (f : ℕ → Partner) (mark : NeedAck) (ps : List ℕ) : Type 0 where
  pub once : Distinct ps
  pub only : (p : ℕ) → (f p).need_ack ≢ mark → NotIn p ps
  pub all : (p : ℕ) → NotIn p ps → (f p).need_ack ≢ mark

pub record IsListed (a : Acking) : Type 0 where
  pub of_delayed : Lists a.partners delayed a.delayed_list
  pub of_immediate : Lists a.partners immediate a.immediate_list

NotIn-append : (q p : ℕ) (ps : List ℕ) → NotIn q ps → q ≢ p → NotIn q (ps ++ (p ∷ []))
NotIn-append q p [] n h = (h, tt)
NotIn-append q p (r ∷ ps) n h = (n.0, NotIn-append q p ps n.1 h)

NotIn-before : (q p : ℕ) (ps : List ℕ) → NotIn q (ps ++ (p ∷ [])) → NotIn q ps × (q ≢ p)
NotIn-before q p [] n = (tt, n.0)
NotIn-before q p (r ∷ ps) n = let (rest, ne) = NotIn-before q p ps n.1 in ((n.0, rest), ne)

Distinct-append : (p : ℕ) (ps : List ℕ) → Distinct ps → NotIn p ps → Distinct (ps ++ (p ∷ []))
Distinct-append p [] d n = (tt, tt)
Distinct-append p (r ∷ ps) d n =
    (NotIn-append r p ps d.0 (λ e. n.0 (sym e)), Distinct-append p ps d.1 n.1)

NotIn-dequeue : (q p : ℕ) (ps : List ℕ) → NotIn q ps → NotIn q (dequeue p ps)
NotIn-dequeue q p [] n = tt
NotIn-dequeue q p (r ∷ ps) n = elim (Bool-cases (p == r)) [
  | inl same ↦ rw same n.1
  | inr other ↦ rw other (n.0, NotIn-dequeue q p ps n.1)
]

NotIn-dequeue_self : (p : ℕ) (ps : List ℕ) → Distinct ps → NotIn p (dequeue p ps)
NotIn-dequeue_self p [] d = tt
NotIn-dequeue_self p (r ∷ ps) d = elim (Bool-cases (p == r)) [
  | inl same ↦ rw same (subst (λ t. NotIn t ps) (sym (==→eq p r same)) d.0)
  | inr other ↦ rw other (==→ne p r other, NotIn-dequeue_self p ps d.1)
]

NotIn-dequeue_back : (q p : ℕ) (ps : List ℕ) → q ≢ p → NotIn q (dequeue p ps) → NotIn q ps
NotIn-dequeue_back q p [] h n = tt
NotIn-dequeue_back q p (r ∷ ps) h n = elim (Bool-cases (p == r)) [
  | inl same ↦ (λ e. h (e ∙ sym (==→eq p r same)), rw same at n)
  | inr other ↦
      let m : (q ≢ r) × NotIn q (dequeue p ps) = rw other at n in
      (m.0, NotIn-dequeue_back q p ps h m.1)
]

Distinct-dequeue : (p : ℕ) (ps : List ℕ) → Distinct ps → Distinct (dequeue p ps)
Distinct-dequeue p [] d = tt
Distinct-dequeue p (r ∷ ps) d = elim (Bool-cases (p == r)) [
  | inl same ↦ rw same d.1
  | inr other ↦ rw other (NotIn-dequeue r p ps d.0, Distinct-dequeue p ps d.1)
]

module _ (f : ℕ → Partner) (m : NeedAck) (ps : List ℕ) (p : ℕ) (v : Partner)
    (l : Lists f m ps) where
  at_self : (P : Partner → Type 0) → P v → P (update f p v p)
  at_self P h = subst P (sym (update_self f p v)) h

  at_other : (q : ℕ) (P : Partner → Type 0) → p ≢ q → P (f q) → P (update f p v q)
  at_other q P n h = subst P (sym (update_ne f p q v n)) h

  old_mark : (q : ℕ) → p ≢ q → (update f p v q).need_ack ≢ m → (f q).need_ack ≢ m
  old_mark q n h = subst (λ (t : Partner). t.need_ack ≢ m) (update_ne f p q v n) h

  -- A partner that neither had the mark nor gets it.
  pub Lists-other : (f p).need_ack ≢ m → v.need_ack ≢ m → Lists (update f p v) m ps
  Lists-other old new = record {
    once = l.once;
    only = λ q h. elim (Bool-cases (p == q)) [
      | inl same ↦ subst (λ t. NotIn t ps) (==→eq p q same) (l.only p old)
      | inr other ↦ l.only q (old_mark q (==→ne p q other) h)
    ];
    all = λ q h. elim (Bool-cases (p == q)) [
      | inl same ↦
          subst (λ t. (update f p v t).need_ack ≢ m) (==→eq p q same)
            (at_self (λ t. t.need_ack ≢ m) new)
      | inr other ↦ at_other q (λ t. t.need_ack ≢ m) (==→ne p q other) (l.all q h)
    ];
  }

  -- A partner that gets the mark goes to either end.
  pub Lists-add : (f p).need_ack ≢ m → v.need_ack ≡ m → Lists (update f p v) m (ps ++ (p ∷ []))
  Lists-add old new = record {
    once = Distinct-append p ps l.once (l.only p old);
    only = λ q h. elim (Bool-cases (p == q)) [
      | inl same ↦ absurd (
          subst (λ t. (update f p v t).need_ack ≢ m) (sym (==→eq p q same)) h
            (at_self (λ t. t.need_ack ≡ m) new))
      | inr other ↦
          NotIn-append q p ps (l.only q (old_mark q (==→ne p q other) h))
            (λ e. ==→ne p q other (sym e))
    ];
    all = λ q h.
        let (rest, ne) = NotIn-before q p ps h in
        at_other q (λ t. t.need_ack ≢ m) (λ e. ne (sym e)) (l.all q rest);
  }

  pub Lists-push : (f p).need_ack ≢ m → v.need_ack ≡ m → Lists (update f p v) m (p ∷ ps)
  Lists-push old new = record {
    once = (l.only p old, l.once);
    only = λ q h. elim (Bool-cases (p == q)) [
      | inl same ↦ absurd (
          subst (λ t. (update f p v t).need_ack ≢ m) (sym (==→eq p q same)) h
            (at_self (λ t. t.need_ack ≡ m) new))
      | inr other ↦ (λ e. ==→ne p q other (sym e), l.only q (old_mark q (==→ne p q other) h))
    ];
    all = λ q h. at_other q (λ t. t.need_ack ≢ m) (λ e. h.0 (sym e)) (l.all q h.1);
  }

  -- A partner that loses the mark leaves.
  pub Lists-remove : v.need_ack ≢ m → Lists (update f p v) m (dequeue p ps)
  Lists-remove new = record {
    once = Distinct-dequeue p ps l.once;
    only = λ q h. elim (Bool-cases (p == q)) [
      | inl same ↦
          subst (λ t. NotIn t (dequeue p ps)) (==→eq p q same) (NotIn-dequeue_self p ps l.once)
      | inr other ↦ NotIn-dequeue q p ps (l.only q (old_mark q (==→ne p q other) h))
    ];
    all = λ q h. elim (Bool-cases (p == q)) [
      | inl same ↦
          subst (λ t. (update f p v t).need_ack ≢ m) (==→eq p q same)
            (at_self (λ t. t.need_ack ≢ m) new)
      | inr other ↦
          at_other q (λ t. t.need_ack ≢ m) (==→ne p q other)
            (l.all q (NotIn-dequeue_back q p ps (λ e. ==→ne p q other (sym e)) h))
    ];
  }

  -- A change of something else.
  pub Lists-same : v.need_ack ≡ (f p).need_ack → Lists (update f p v) m ps
  Lists-same e = record {
    once = l.once;
    only = λ q h. l.only q (λ k. h (same_mark q ∙ k));
    all = λ q h k. l.all q h (sym (same_mark q) ∙ k);
  }
    where
      same_mark : (q : ℕ) → (update f p v q).need_ack ≡ (f q).need_ack
      same_mark q = elim (Bool-cases (p == q)) [
        | inl same ↦
            subst (λ t. (update f p v t).need_ack ≡ (f t).need_ack) (==→eq p q same)
              (at_self (λ t. t.need_ack ≡ (f p).need_ack) e)
        | inr other ↦ at_other q (λ t. t.need_ack ≡ (f q).need_ack) (==→ne p q other) refl
      ]
