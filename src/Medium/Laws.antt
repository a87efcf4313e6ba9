-- ===== src/Medium/Laws.antt =====
-- libxen2mx/omx_recv.c: what the fragments of a medium message do to a request whose buffer is at
-- least as long as the message, as the sender cuts the message in the wire-compatible build.
use xen2mx.Base.{
  add32, ℕ, ◌+◌, ◌-◌, ◌*◌, ◌/◌, ◌≤◌, ◌<◌, ◌≡◌, ◌≢◌, inl, inr, refl, sym, ap, subst, ◌∙◌, List,
  Option, some, Bool, true, false, not, ◌&&◌, arith, ◌==◌, length, take, drop, splice, is_set,
  ne→==, le→leb, Bool-cases, length-drop, length-take_le, length-splice,
}
use native.Mathlib.Decide.{dec_lt, ℕ_discrete}
use xen2mx.Segments.{contents, total_length}
use xen2mx.Segments.Copy.{length-contents}
use xen2mx.Segments.Partial.{Progress}
use xen2mx.Segments.Partial.Laws.{IsTracked}
use xen2mx.Medium.{
  MediumFrag, MediumRecv, set_bit, copy_chunk, account_frag, process_recv_medium_frag,
}
use xen2mx.Medium.Marks.{
  is_set-set_bit_self, is_set-set_bit_ne, length-set_bit, chunk_of, received_total,
  received_total_le, received_total-lt, received_total-set_bit, get_elem, get_elem-take,
  get_elem-drop, get_elem-splice_within, get_elem-splice_before, get_elem-splice_behind,
}
use xen2mx.Medium.Store.{Kept, copy_chunk-Kept}

pub and-false : (x : Bool) → (x && false) ≡ false
and-false true = refl
and-false false = refl

module _ (msg : List ℕ) where
  abbrev pub len : ℕ
  len = length msg

  -- Fragment k of the message.
  abbrev pub frag_of : ℕ → MediumFrag
  frag_of k = record {
    msg_length = len;
    frag_length = chunk_of len k;
    frag_seqnum = k;
    frag_pipeline = 12;
    bytes = take (chunk_of len k) (drop (4096 * k) msg);
  }

  -- The state after some fragments: the bytes of each marked one are in their place, their lengths
  -- are counted, and an expected request is completed when the whole message is counted.
  pub record Reassembling (r : MediumRecv) : Type 0 where
    pub room : len ≤ total_length r.progress.segs
    pub tracked : length r.progress.segs ≢ 1 → IsTracked r.progress
    pub width : length r.frags_received_mask ≡ 32
    pub counted : r.accumulated_length ≡ received_total len 8 r.frags_received_mask
    pub stored :
        (j : ℕ)
        → j < len
        → is_set (j / 4096) r.frags_received_mask ≡ true
        → get_elem j (contents r.progress.segs) ≡ get_elem j msg
    pub finished : r.completed ≡ (not r.unexpected && (r.accumulated_length == len))

  -- What account_frag does to the fields.
  account-fields :
      (k : ℕ) (r : MediumRecv)
      → ((account_frag (frag_of k) r).progress ≡ r.progress)
        × ((account_frag (frag_of k) r).frags_received_mask ≡ set_bit k r.frags_received_mask)
        × ((account_frag (frag_of k) r).accumulated_length
            ≡ add32 r.accumulated_length (chunk_of len k))
        × ((account_frag (frag_of k) r).unexpected ≡ r.unexpected)
  unfolding account_frag
  account-fields k r = ground arith

  account-completed :
      (k : ℕ) (r : MediumRecv)
      → r.completed ≡ false
      → (account_frag (frag_of k) r).completed
        ≡ (not r.unexpected && (add32 r.accumulated_length (chunk_of len k) == len))
  unfolding account_frag
  account-completed k r e = ground (arith, e)

  -- The state after one fragment more.
  pub record Stepped (k : ℕ) (r : MediumRecv) (out : Option MediumRecv) : Type 0 where
    pub after : MediumRecv
    pub result : out ≡ some after
    pub kept : Reassembling after
    pub same_unexpected : after.unexpected ≡ r.unexpected
    pub marked : is_set k after.frags_received_mask ≡ true
    pub others :
        (j : ℕ) → j ≢ k → is_set j after.frags_received_mask ≡ is_set j r.frags_received_mask

  again-Stepped :
      (k : ℕ) (r : MediumRecv)
      → Reassembling r
      → is_set k r.frags_received_mask ≡ true
      → Stepped k r (process_recv_medium_frag len (frag_of k) r)
  unfolding process_recv_medium_frag
  again-Stepped k r v e = record {
    after = r;
    result = rw e refl;
    kept = v;
    same_unexpected = refl;
    marked = e;
    others = λ j n. refl;
  }

  module _ (k : ℕ) (r : MediumRecv) (v : Reassembling r) (inside : 4096 * k < len)
      (fits : len ≤ 8 * 4096) (new : is_set k r.frags_received_mask ≡ false) where
    length-src : length (take (chunk_of len k) (drop (4096 * k) msg)) ≡ chunk_of len k
    length-src =
        length-take_le (chunk_of len k) (drop (4096 * k) msg)
          (omega (arith, length-drop (4096 * k) msg))

    copied :
        Kept r.progress (take (chunk_of len k) (drop (4096 * k) msg)) (chunk_of len k) (k * 4096) (
          copy_chunk r.progress.segs r.progress
            (take (chunk_of len k) (drop (4096 * k) msg))
            (chunk_of len k)
            (k * 4096))
    copied =
        copy_chunk-Kept r.progress.segs r.progress _ (chunk_of len k) (k * 4096) refl v.tracked
          (omega (arith, inside)) (omega (arith, v.room)) (omega (arith, length-src))

    abbrev between : MediumRecv
    between = record r { progress = copied.after }

    abbrev next : MediumRecv
    next = account_frag (frag_of k) between

    next-accumulated : next.accumulated_length ≡ r.accumulated_length + chunk_of len k
    next-accumulated =
        (account-fields k between).2
        ∙ omega (arith, v.counted, received_total_le len 8 r.frags_received_mask, fits)

    not-whole : r.accumulated_length < len
    not-whole = omega (
      arith,
      v.counted,
      received_total-lt len 8 k r.frags_received_mask (omega (arith, inside, fits)) inside new,
      fits,
    )

    space : k * 4096 + chunk_of len k ≤ length (contents r.progress.segs)
    space = omega (arith, inside, v.room, length-contents r.progress.segs)

    length-after :
        length (
          splice
            (k * 4096)
            (chunk_of len k)
            (take (chunk_of len k) (drop (4096 * k) msg))
            (contents r.progress.segs))
        ≡ length (contents r.progress.segs)
    length-after =
        length-splice (k * 4096) (chunk_of len k) _ (contents r.progress.segs) space
          (omega (arith, length-src))

    next-room : len ≤ total_length copied.after.segs
    next-room = omega (
      arith,
      v.room,
      sym (length-contents copied.after.segs) ∙ ap length copied.bytes ∙ length-after,
      length-contents r.progress.segs,
    )

    IsTracked-after : length copied.after.segs ≢ 1 → IsTracked copied.after
    IsTracked-after m = copied.tracked (λ z. m (copied.same_nseg ∙ z))

    open_before : r.completed ≡ false
    open_before =
        v.finished
        ∙ ap (λ b. not r.unexpected && b)
            (ne→== r.accumulated_length len (λ e. omega (arith, e, not-whole)))
        ∙ and-false (not r.unexpected)

    stored_self :
        (j : ℕ) → j < len → j / 4096 ≡ k → get_elem j (contents copied.after.segs) ≡ get_elem j msg
    stored_self j l q =
        ap (get_elem j) copied.bytes
        ∙ get_elem-splice_within (k * 4096) (chunk_of len k) _ (contents r.progress.segs) space
            (omega (arith, length-src)) j (omega (arith, q)) (omega (arith, q, l))
        ∙ get_elem-take (j - k * 4096) (chunk_of len k) (drop (4096 * k) msg) (omega (arith, q, l))
        ∙ get_elem-drop (j - k * 4096) (4096 * k) msg
        ∙ ap (λ i. get_elem i msg) (omega (arith, q))

    stored_other :
        (j : ℕ)
        → j < len
        → j / 4096 ≢ k
        → is_set (j / 4096) r.frags_received_mask ≡ true
        → get_elem j (contents copied.after.segs) ≡ get_elem j msg
    stored_other j l q e =
        ap (get_elem j) copied.bytes
        ∙ (elim (dec_lt j (k * 4096)) [
          | yes before ↦
              get_elem-splice_before (k * 4096) (chunk_of len k) _ (contents r.progress.segs) space
                (omega (arith, length-src)) j before
          | no past ↦
              get_elem-splice_behind (k * 4096) (chunk_of len k) _ (contents r.progress.segs) space
                (omega (arith, length-src)) j (omega (arith, past, q))
        ])
        ∙ v.stored j l e

    stored_after :
        (j : ℕ)
        → j < len
        → is_set (j / 4096) (set_bit k r.frags_received_mask) ≡ true
        → get_elem j (contents copied.after.segs) ≡ get_elem j msg
    stored_after j l e = elim (ℕ_discrete (j / 4096) k) [
      | yes q ↦ stored_self j l q
      | no q ↦ stored_other j l q (sym (is_set-set_bit_ne (j / 4096) k r.frags_received_mask q) ∙ e)
    ]

    new-Stepped : Stepped k r (process_recv_medium_frag len (frag_of k) r)
    unfolding process_recv_medium_frag
    new-Stepped =
        let (p, m, a, u) = account-fields k between in
        record {
          after = next;
          result =
              rw
                (new, le→leb (k * 4096 + chunk_of len k) len (omega (arith, inside)), copied.result)
                refl;
          kept = record {
            room = rw p next-room;
            tracked =
                subst (λ (q : Progress). length q.segs ≢ 1 → IsTracked q) (sym p) IsTracked-after;
            width = rw m (length-set_bit k r.frags_received_mask ∙ v.width);
            counted =
                next-accumulated
                ∙ rw (m, v.counted)
                    (sym (
                      received_total-set_bit len 8 k r.frags_received_mask
                        (omega (arith, inside, fits)) (omega (arith, inside, fits, v.width)) new));
            stored = λ j l e.
                ap (λ (q : Progress). get_elem j (contents q.segs)) p
                ∙ stored_after j l (sym (ap (is_set (j / 4096)) m) ∙ e);
            finished = account-completed k between open_before ∙ rw (u, a) refl;
          };
          same_unexpected = u;
          marked =
              rw m (
                is_set-set_bit_self k r.frags_received_mask (omega (arith, inside, fits, v.width)));
          others = λ j n. rw m (is_set-set_bit_ne j k r.frags_received_mask n);
        }

  pub process_recv_medium_frag-Stepped :
      (k : ℕ) (r : MediumRecv)
      → Reassembling r
      → 4096 * k < len
      → len ≤ 8 * 4096
      → Stepped k r (process_recv_medium_frag len (frag_of k) r)
  process_recv_medium_frag-Stepped k r v inside fits =
      elim (Bool-cases (is_set k r.frags_received_mask)) [
        | inl e ↦ again-Stepped k r v e
        | inr e ↦ new-Stepped k r v inside fits e
      ]
