-- ===== src/UserRegion/Continue.antt =====
-- driver/linux/omx_reg.c, omx__user_region_pin_continue: the loop ends, with enough memory pinned or
-- with an error, and loses no reference to a page.
use native.Mathlib.Decide.{dec_lt}
use xen2mx.Base.{
  ℕ, zero, suc, ◌+◌, ◌-◌, ◌/◌, ◌<◌, ◌≤◌, ◌≡◌, refl, sym, ap, ◌∙◌, subst, List, [], ◌∷◌, ◌++◌,
  Option, none, some, ◌==◌, arith, Bool-cases, inl, inr, lt→ltb, le→ltb, ==→eq,
}
use xen2mx.UserRegion.{Segment, UserSegment, page_size, segs_length, long_mod}
use xen2mx.UserRegion.Pin.{
  Pinning, Gup, error, Pinned, pinned, failed, no_segment, started_in, chunk_pages, answered,
  add_chunk_from, pin_add_chunk, pin_then, pin_continue,
}
use xen2mx.UserRegion.Chunk.{advance-IsPinning}
use xen2mx.UserRegion.Pinned.{
  IsCurrent, AllFresh, AllFinished, IsGoing, IsPinning, user_segs, pinned_total,
  started_in-IsCurrent, user_total, user_total-user_segs, user_total-append, chunk_pages_limit,
}

-- get_user_pages_fast gives the pages of the process, not more than it is asked for.
abbrev pub IsPageTable : (ℕ → ℕ → Gup) → (ℕ → ℕ) → Type 0
IsPageTable gup frame =
    (a n m : ℕ) (frames : ℕ → ℕ)
    → gup a n ≡ Gup.pinned m frames
    → (m ≤ n) × ((j : ℕ) → j < m → frames j ≡ frame (a / page_size + j))

-- The references that are held are those to the pages that segments count.
abbrev pub HoldsRefs : Pinning → Type 0
HoldsRefs q = q.page_refs ≡ pinned_total q.finished + pinned_total q.todo

-- More is pinned than before, or the pages of the chunk are given back.
abbrev pub IsAdded : (ℕ → ℕ) → List UserSegment → ℕ → Pinned → Type 0
IsAdded frame us registered (pinned q) =
    IsPinning frame us q × (registered < q.total_registered_length)
IsAdded frame us registered (failed q) = HoldsRefs q
IsAdded frame us registered no_segment = ⊥

started_in-keeps :
    (s : Segment) (p : Pinning) (o : Option ℕ)
    → ((started_in s p o).finished ≡ p.finished)
      × ((started_in s p o).todo ≡ p.todo)
      × ((started_in s p o).page_refs ≡ p.page_refs)
      × ((started_in s p o).next_chunk_pages ≡ p.next_chunk_pages)
      × ((started_in s p o).total_registered_length ≡ p.total_registered_length)
started_in-keeps s p none = (refl, refl, refl, refl, refl)
started_in-keeps s p (some i) = (refl, refl, refl, refl, refl)

answered-IsAdded :
    (gup : ℕ → ℕ → Gup) (frame : ℕ → ℕ) (chunk_pages_max : ℕ) (us : List UserSegment) (s : Segment)
    (ss : List Segment) (i : ℕ) (q : Pinning) (g : Gup)
    → IsPageTable gup frame
    → 0 < chunk_pages_max
    → chunk_pages_max ≤ chunk_pages_limit
    → user_total us < long_mod
    → gup q.aligned_vaddr (chunk_pages q) ≡ g
    → q.pages ≡ some i
    → IsCurrent frame s i q
    → AllFresh ss
    → AllFinished frame q.finished
    → user_segs q.finished ++ user_segs (s ∷ ss) ≡ us
    → (0 < q.next_chunk_pages) × (q.next_chunk_pages ≤ chunk_pages_limit)
    → q.page_refs ≡ pinned_total q.finished + pinned_total (s ∷ ss)
    → q.todo ≡ s ∷ ss
    → IsAdded frame us q.total_registered_length (answered chunk_pages_max s ss q g)
answered-IsAdded gup frame max us s ss i q error table m limit small e at_i cur fresh done segs
      chunks refs t =
    refs ∙ ap (λ l. pinned_total q.finished + pinned_total l) (sym t)
answered-IsAdded gup frame max us s ss i q (Gup.pinned ret frames) table m limit small e at_i cur
      fresh done segs chunks refs t =
    elim (Bool-cases (ret == chunk_pages q)) [
      | inl same ↦
          let ret_is : ret ≡ chunk_pages q = ==→eq ret (chunk_pages q) same in
          rw same (
            advance-IsPinning frame s ss i q frames cur chunks
              (λ j l.
                (table q.aligned_vaddr (chunk_pages q) ret frames e).1 j (omega (arith, l, ret_is)))
              max us m limit small done fresh segs refs at_i)
      | inr other ↦ rw other (
          let r : q.page_refs + ret - ret ≡ q.page_refs = omega arith in
          r ∙ refs ∙ ap (λ l. pinned_total q.finished + pinned_total l) (sym t))
    ]

-- With no segment left all is pinned.
all_pinned :
    (frame : ℕ → ℕ) (p : Pinning) (o : Option ℕ)
    → IsGoing frame p [] o
    → p.total_registered_length ≡ segs_length p.finished
all_pinned frame p none g = g.1
all_pinned frame p (some i) g = absurd g

pin_add_chunk-IsAdded :
    (gup : ℕ → ℕ → Gup) (frame : ℕ → ℕ) (chunk_pages_max : ℕ) (us : List UserSegment) (p : Pinning)
    (todo : List Segment)
    → IsPageTable gup frame
    → 0 < chunk_pages_max
    → chunk_pages_max ≤ chunk_pages_limit
    → IsPinning frame us p
    → p.todo ≡ todo
    → p.total_registered_length < user_total us
    → IsAdded frame us p.total_registered_length (add_chunk_from gup chunk_pages_max todo p)
unfolding add_chunk_from
pin_add_chunk-IsAdded gup frame max us p [] table m limit h t less =
    let g = subst (λ l. IsGoing frame p l p.pages) t h.going in
    let total : user_total us ≡ segs_length p.finished + segs_length [] =
      ap user_total (sym h.segs)
      ∙ user_total-append (user_segs p.finished) (user_segs p.todo)
      ∙ ap (λ l. user_total (user_segs p.finished) + user_total (user_segs l)) t
      ∙ ap (λ n. n + segs_length []) (user_total-user_segs p.finished) in
    omega (arith, total, all_pinned frame p p.pages g, less)
pin_add_chunk-IsAdded gup frame max us p (s ∷ ss) table m limit h t less =
    let st =
      started_in-IsCurrent frame s ss p p.pages refl
        (subst (λ l. IsGoing frame p l p.pages) t h.going) in
    let k = started_in-keeps s p p.pages in
    let q = started_in s p p.pages in
    subst (λ n. IsAdded frame us n (answered max s ss q (gup q.aligned_vaddr (chunk_pages q)))) k.4
      (answered-IsAdded gup frame max us s ss st.0 q _ table m limit h.total refl st.1 st.2 st.3
        (subst (AllFinished frame) (sym k.0) h.done)
        (ap (λ f. user_segs f ++ user_segs (s ∷ ss)) k.0
          ∙ ap (λ l. user_segs p.finished ++ user_segs l) (sym t)
          ∙ h.segs)
        (omega (arith, k.3, h.chunks), omega (arith, k.3, h.chunks))
        (k.2
          ∙ h.refs
          ∙ ap (λ l. pinned_total p.finished + pinned_total l) t
          ∙ ap (λ f. pinned_total f + pinned_total (s ∷ ss)) (sym k.0))
        (k.1 ∙ t))

-- As much as is needed is pinned, or the driver could not pin a page.
abbrev pub IsDone : (ℕ → ℕ) → List UserSegment → ℕ → Pinned → Type 0
IsDone frame us needed (pinned q) = IsPinning frame us q × (needed ≤ q.total_registered_length)
IsDone frame us needed (failed q) = HoldsRefs q
IsDone frame us needed no_segment = ⊥

pin_then-IsDone :
    (frame : ℕ → ℕ) (us : List UserSegment) (needed registered : ℕ) (o : Pinned)
    (next : Pinning → Pinned)
    → IsAdded frame us registered o
    → ((q : Pinning)
        → IsPinning frame us q
        → registered < q.total_registered_length
        → IsDone frame us needed (next q))
    → IsDone frame us needed (pin_then o next)
pin_then-IsDone frame us needed registered (pinned q) next a n = n q a.0 a.1
pin_then-IsDone frame us needed registered (failed q) next a n = a
pin_then-IsDone frame us needed registered no_segment next a n = a

module _ (gup : ℕ → ℕ → Gup) (frame : ℕ → ℕ) (chunk_pages_max : ℕ) (us : List UserSegment)
    (table : IsPageTable gup frame) (m : 0 < chunk_pages_max)
    (limit : chunk_pages_max ≤ chunk_pages_limit) where
  -- A region in a state of pinning (its chunks of at most 2 ^ 18 pages and its memory below 2 ^ 64,
  -- a page short of it), of which no more is needed than it has, and a bound on the pages of a chunk
  -- that is not 0 and at most 2 ^ 18: the loop ends, with fuel for each byte that is
  -- still needed, and has pinned what is needed, all of it pages of the process, or pinning failed
  -- and no reference is held but to the pages that the segments count.
  pub pin_continue-IsDone :
      (fuel : ℕ) (p : Pinning) (needed : ℕ)
      → IsPinning frame us p
      → needed ≤ user_total us
      → needed - p.total_registered_length < fuel
      → IsDone frame us needed (pin_continue fuel gup chunk_pages_max p needed)
  unfolding pin_continue pin_add_chunk
  pin_continue-IsDone zero p needed h le f = absurd (omega arith)
  pin_continue-IsDone (suc fuel) p needed h le f = elim (dec_lt p.total_registered_length needed) [
    | no enough ↦
        rw (le→ltb p.total_registered_length needed (omega (arith, enough)))
          (h, omega (arith, enough))
    | yes more ↦ rw (lt→ltb _ _ more) (
        pin_then-IsDone frame us needed p.total_registered_length _ _
          (pin_add_chunk-IsAdded gup frame chunk_pages_max us p p.todo table m limit h refl
            (omega (arith, more, le)))
          (λ q i l. pin_continue-IsDone fuel q needed i le (omega (arith, l, f, more))))
  ]
