-- ===== src/Medium/Runs.antt =====
-- libxen2mx/omx_recv.c: the fragments of one medium message in any order, some more than once.
use xen2mx.Base.{
  ap₂, some-injective, ℕ, suc, ◌*◌, ◌/◌, ◌≤◌, ◌<◌, ◌≡◌, ◌≢◌, refl, sym, ap, ◌∙◌, List, [], ◌∷◌,
  Option, some, Bool, true, false, not, ◌&&◌, ◌||◌, arith, length, take, is_set, zeros, eq→==,
  ne→==, member,
}
use native.Mathlib.Decide.{ℕ_discrete}
use xen2mx.Segments.{contents, total_length, ◌>>=◌}
use xen2mx.Segments.Copy.{length-contents}
use xen2mx.Segments.Partial.Position.{At-start}
use xen2mx.Segments.Partial.Laws.{IsTracked}
use xen2mx.Medium.{MediumRecv, init_process_recv_medium, process_recv_medium_frag}
use xen2mx.Medium.Marks.{is_set-zeros, received_total-lt, received_total-all, get_elem}
use xen2mx.Medium.Laws.{
  and-false, len, frag_of, Reassembling, Stepped, process_recv_medium_frag-Stepped,
}

-- The fragments of the message with these numbers, one after the other.
unfoldable pub receive : List ℕ → List ℕ → MediumRecv → Option MediumRecv
unfolding process_recv_medium_frag
receive msg [] r = some r
receive msg (k ∷ ks) r = process_recv_medium_frag (length msg) (frag_of msg k) r >>= receive msg ks

-- Every number is that of a fragment of the message.
abbrev pub Inside : ℕ → List ℕ → Type 0
Inside n [] = Unit {0}
Inside n (k ∷ ks) = (4096 * k < n) × Inside n ks

module _ (msg : List ℕ) (fits : len msg ≤ 8 * 4096) where
  record Came (ks : List ℕ) (r : MediumRecv) (out : Option MediumRecv) : Type 0 where
    after : MediumRecv
    result : out ≡ some after
    kept : Reassembling msg after
    same_unexpected : after.unexpected ≡ r.unexpected
    marks :
        (j : ℕ)
        → is_set j after.frags_received_mask ≡ (member j ks || is_set j r.frags_received_mask)

  or-true : (b : Bool) → (b || true) ≡ true
  or-true true = refl
  or-true false = refl

  receive-Came :
      (ks : List ℕ) (r : MediumRecv)
      → Inside (len msg) ks
      → Reassembling msg r
      → Came ks r (receive msg ks r)
  unfolding receive
  receive-Came [] r i v = record {
    after = r;
    result = refl;
    kept = v;
    same_unexpected = refl;
    marks = λ j. refl;
  }
  receive-Came (k ∷ ks) r i v =
      let s : Stepped msg k r (process_recv_medium_frag (len msg) (frag_of msg k) r) =
        process_recv_medium_frag-Stepped msg k r v i.0 fits in
      let ih : Came ks s.after (receive msg ks s.after) = receive-Came ks s.after i.1 s.kept in
      record {
        after = ih.after;
        result = rw s.result ih.result;
        kept = ih.kept;
        same_unexpected = ih.same_unexpected ∙ s.same_unexpected;
        marks = λ j. elim (ℕ_discrete j k) [
          | yes p ↦
              ih.marks j
              ∙ ap (λ b. member j ks || b)
                  (ap (λ i. is_set i s.after.frags_received_mask) p ∙ s.marked)
              ∙ or-true (member j ks)
              ∙ rw (eq→== j k p) refl
          | no q ↦ ih.marks j ∙ ap (λ b. member j ks || b) (s.others j q) ∙ rw (ne→== j k q) refl
        ];
      }

  init-Reassembling :
      (r : MediumRecv)
      → len msg ≤ total_length r.progress.segs
      → 0 < len msg
      → r.completed ≡ false
      → Reassembling msg (init_process_recv_medium r)
  unfolding init_process_recv_medium IsTracked
  init-Reassembling r room some_byte fresh = record {
    room = room;
    tracked = λ m. At-start r.progress.segs;
    width = refl;
    counted = refl;
    stored = λ j l e. absurd (ground (arith, e, is_set-zeros (j / 4096) 32));
    finished =
        rw (fresh, ne→== 0 (len msg) (omega (arith, some_byte)))
          (sym (and-false (not r.unexpected)));
  }

-- The bytes of a list that agrees with the message at each of its places.
take-same :
    (msg xs : List ℕ)
    → length msg ≤ length xs
    → ((j : ℕ) → j < length msg → get_elem j xs ≡ get_elem j msg)
    → take (length msg) xs ≡ msg
take-same [] xs l e = refl
take-same (x ∷ msg) [] l e = absurd (omega (arith, l))
take-same (x ∷ msg) (y ∷ xs) l e =
    ap₂ ◌∷◌ (some-injective y x (e 0 (omega arith)))
      (take-same msg xs (omega (arith, l)) (λ j m. e (suc j) (omega (arith, m))))

init-fields :
    (r : MediumRecv)
    → ((init_process_recv_medium r).unexpected ≡ r.unexpected)
      × ((init_process_recv_medium r).frags_received_mask ≡ zeros 32)
unfolding init_process_recv_medium
init-fields r = (refl, refl)

or-false : (b : Bool) → (b || false) ≡ b
or-false true = refl
or-false false = refl

and-true : (b : Bool) → (b && true) ≡ b
and-true true = refl
and-true false = refl

-- After a run from a fresh request, the marks are the numbers that came.
module _ (msg ks : List ℕ) (r : MediumRecv) (some_byte : 0 < length msg)
    (fits : length msg ≤ 8 * 4096) (room : length msg ≤ total_length r.progress.segs)
    (fresh : r.completed ≡ false) (inside : Inside (length msg) ks) where
  came : Came msg fits ks (init_process_recv_medium r) (receive msg ks (init_process_recv_medium r))
  came =
      receive-Came msg fits ks (init_process_recv_medium r) inside
        (init-Reassembling msg fits r room some_byte fresh)

  came-marks : (j : ℕ) → is_set j came.after.frags_received_mask ≡ member j ks
  came-marks j =
      came.marks j
      ∙ ap (λ b. member j ks || b) (ap (is_set j) (init-fields r).1 ∙ is_set-zeros j 32)
      ∙ or-false (member j ks)

  came-unexpected : came.after.unexpected ≡ r.unexpected
  came-unexpected = came.same_unexpected ∙ (init-fields r).0

  came-whole :
      ((k : ℕ) → 4096 * k < length msg → member k ks ≡ true)
      → came.after.accumulated_length ≡ length msg
  came-whole all =
      came.kept.counted
      ∙ received_total-all (length msg) 8 came.after.frags_received_mask
          (λ k l m. came-marks k ∙ all k m)
      ∙ omega (arith, fits)

  came-bytes :
      ((k : ℕ) → 4096 * k < length msg → member k ks ≡ true)
      → take (length msg) (contents came.after.progress.segs) ≡ msg
  came-bytes all =
      take-same msg (contents came.after.progress.segs)
        (omega (arith, came.kept.room, length-contents came.after.progress.segs))
        (λ j l. came.kept.stored j l (came-marks (j / 4096) ∙ all (j / 4096) (omega (arith, l))))

  came-part :
      (k : ℕ)
      → 4096 * k < length msg
      → member k ks ≡ false
      → came.after.accumulated_length ≢ length msg
  came-part k l missing e = omega (
    arith,
    came.kept.counted,
    received_total-lt (length msg) 8 k came.after.frags_received_mask (omega (arith, l, fits)) l
        (came-marks k ∙ missing),
    e,
    fits,
  )

-- A message of at least a byte and at most 8 fragments, into a buffer at least as long, of a request
-- that is not completed: once each of its fragments has come, in any order and however often, and
-- nothing else, the buffer begins with the message, and the request is completed where it was
-- expected.
pub receive-whole :
    (msg ks : List ℕ) (r : MediumRecv)
    → 0 < length msg
    → length msg ≤ 8 * 4096
    → length msg ≤ total_length r.progress.segs
    → r.completed ≡ false
    → Inside (length msg) ks
    → ((k : ℕ) → 4096 * k < length msg → member k ks ≡ true)
    → (r' : MediumRecv) × (receive msg ks (init_process_recv_medium r) ≡ some r')
      × (take (length msg) (contents r'.progress.segs) ≡ msg)
      × (r'.completed ≡ not r.unexpected)
receive-whole msg ks r some_byte fits room fresh inside all =
    let c = came msg ks r some_byte fits room fresh inside in
    let whole = came-whole msg ks r some_byte fits room fresh inside all in
    (
      c.after,
      c.result,
      came-bytes msg ks r some_byte fits room fresh inside all,
      c.kept.finished
          ∙ ap (λ b. not c.after.unexpected && b) (eq→== _ _ whole)
          ∙ and-true (not c.after.unexpected)
          ∙ ap not (came-unexpected msg ks r some_byte fits room fresh inside),
    )

-- A message of at most 8 fragments, into a buffer at least as long, of a request that is not
-- completed: while some fragment has not come, in any order of the others and however often, the
-- request is not completed.
pub receive-part :
    (msg ks : List ℕ) (r : MediumRecv) (k : ℕ)
    → length msg ≤ 8 * 4096
    → length msg ≤ total_length r.progress.segs
    → r.completed ≡ false
    → Inside (length msg) ks
    → 4096 * k < length msg
    → member k ks ≡ false
    → (r' : MediumRecv) × (receive msg ks (init_process_recv_medium r) ≡ some r')
      × (r'.completed ≡ false)
receive-part msg ks r k fits room fresh inside l missing =
    let some_byte : 0 < length msg = omega (arith, l) in
    let c = came msg ks r some_byte fits room fresh inside in
    (
      c.after,
      c.result,
      c.kept.finished
          ∙ ap (λ b. not c.after.unexpected && b)
              (ne→== c.after.accumulated_length (length msg)
                (came-part msg ks r some_byte fits room fresh inside k l missing))
          ∙ and-false (not c.after.unexpected),
    )
