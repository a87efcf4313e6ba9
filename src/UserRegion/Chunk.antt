-- ===== src/UserRegion/Chunk.antt =====
-- driver/linux/omx_reg.c, omx__user_region_pin_add_chunk: a chunk that is pinned, none of whose ints
-- wraps around.
use native.Mathlib.Decide.{dec_lt}
use xen2mx.Base.{
  ℕ, ◌+◌, ◌-◌, ◌*◌, ◌/◌, ◌%◌, ◌<◌, ◌≤◌, ◌≡◌, refl, ap, ◌∙◌, List, [], ◌∷◌, ◌++◌, some, arith,
  append_assoc, ◌⊎◌, ◌^◌, lt→ltb, le→ltb,
}
use xen2mx.UserRegion.{Segment, UserSegment, page_size, long_mod}
use xen2mx.UserRegion.Pin.{
  Pinning, chunk_length, chunk_pages, to_long, with_pages, advance, index_of,
}
use xen2mx.UserRegion.Pinned.{
  AllFinished, AllFinished-append, AllFresh, IsCurrent, IsMapped, IsPinning, chunk_pages_limit,
  next_pages-bounds, pinned_total, pinned_total-append, segs_length-append, user_segs,
  user_segs-append, user_total, user_total-append, user_total-user_segs,
}

module _ (frame : ℕ → ℕ) (s : Segment) (ss : List Segment) (i : ℕ) (p : Pinning) (frames : ℕ → ℕ)
    (h : IsCurrent frame s i p)
    (chunks : (0 < p.next_chunk_pages) × (p.next_chunk_pages ≤ chunk_pages_limit))
    (got : (j : ℕ) → j < chunk_pages p → frames j ≡ frame (p.aligned_vaddr / page_size + j)) where
  -- The segment has the pages of the chunk.
  with_pages-IsMapped : IsMapped frame (with_pages s i (chunk_pages p) frames) (i + chunk_pages p)
  with_pages-IsMapped j l = elim (dec_lt j i) [
    | yes before ↦ ground (arith, h.mapped j before)
    | no behind ↦
        let same : p.aligned_vaddr / page_size + (j - i) ≡ s.aligned_vaddr / page_size + j =
          omega (arith, h.vaddr, behind) in
        ground (arith, got (j - i), ap frame same)
  ]

  most_is : p.next_chunk_pages * page_size % 2 ^ 32 ≡ p.next_chunk_pages * page_size
  most_is = omega (arith, chunks)

  -- No int of a chunk wraps around.
  chunk_length_is :
      ((p.chunk_offset + p.remaining ≤ p.next_chunk_pages * page_size)
        × (chunk_length p ≡ p.remaining))
      ⊎ ((p.next_chunk_pages * page_size < p.chunk_offset + p.remaining)
          × (chunk_length p ≡ p.next_chunk_pages * page_size - p.chunk_offset))
  chunk_length_is =
      rw most_is (ground (arith, chunks, h.some_left, h.offset, h.not_more, h.segment.in_memory))

  to_long_is : to_long (chunk_length p) ≡ chunk_length p
  to_long_is = ground (arith, chunk_length_is, chunks, h.offset)

  chunk_pages_is : chunk_pages p ≡ (p.chunk_offset + chunk_length p + (page_size - 1)) / page_size
  chunk_pages_is = ground (arith, chunk_length_is, chunks, h.offset)

  -- A chunk holds at least a byte, and not more than is left.
  chunk_length_bounds : (0 < chunk_length p) × (chunk_length p ≤ p.remaining)
  chunk_length_bounds = ground (arith, chunk_length_is, chunks, h.some_left, h.offset)

  -- A chunk that ends its segment.
  last_pages : p.remaining ≤ chunk_length p → i + chunk_pages p ≡ s.nr_pages
  last_pages l =
      omega (arith, chunk_pages_is, chunk_length_bounds, l, h.place, h.segment.page_count)

  -- A chunk that does not is whole pages.
  whole_pages :
      chunk_length p < p.remaining
      → (chunk_pages p ≡ p.next_chunk_pages)
        × (p.chunk_offset + chunk_length p ≡ p.next_chunk_pages * page_size)
  whole_pages l = ground (arith, chunk_pages_is, chunk_length_is, l, chunks, h.offset, h.some_left)

  offset_is : to_long p.chunk_offset ≡ p.chunk_offset
  offset_is = ground (arith, h.offset)

  aligned_is :
      chunk_length p < p.remaining
      → (p.aligned_vaddr + p.chunk_offset + chunk_length p) % long_mod
        ≡ p.aligned_vaddr + p.chunk_offset + chunk_length p
  aligned_is l = omega (arith, l, h.vaddr, h.place, h.segment.in_memory)

  total_is :
      (us : List UserSegment)
      → user_segs p.finished ++ user_segs (s ∷ ss) ≡ us
      → user_total us < long_mod
      → (p.total_registered_length + chunk_length p) % long_mod
        ≡ p.total_registered_length + chunk_length p
  total_is us segs small = omega (
    arith,
    small,
    ap user_total segs,
    user_total-append (user_segs p.finished) (user_segs (s ∷ ss)),
    user_total-user_segs p.finished,
    h.registered,
    h.not_more,
    chunk_length_bounds,
  )

  -- The state behind the chunk: the segment goes on, or is finished.
  pub advance-IsPinning :
      (chunk_pages_max : ℕ) (us : List UserSegment)
      → 0 < chunk_pages_max
      → chunk_pages_max ≤ chunk_pages_limit
      → user_total us < long_mod
      → AllFinished frame p.finished
      → AllFresh ss
      → user_segs p.finished ++ user_segs (s ∷ ss) ≡ us
      → p.page_refs ≡ pinned_total p.finished + pinned_total (s ∷ ss)
      → p.pages ≡ some i
      → IsPinning frame us (advance chunk_pages_max s ss p frames)
        × (p.total_registered_length
            < (advance chunk_pages_max s ss p frames).total_registered_length)
  unfolding advance
  advance-IsPinning chunk_pages_max us max limit small done fresh segs refs e =
      let at_i : index_of p.pages ≡ i = ap index_of e in
      elim (dec_lt (chunk_length p) p.remaining) [
        | yes more ↦ (
          rw (lt→ltb (to_long (chunk_length p)) p.remaining (omega (arith, more, to_long_is)), at_i)
              (record {
                done = done;
                going = (
                  record {
                    segment = record {
                      offset_in_page = h.segment.offset_in_page;
                      aligned = h.segment.aligned;
                      nonempty = h.segment.nonempty;
                      in_memory = h.segment.in_memory;
                      page_count = h.segment.page_count;
                    };
                    so_far = omega (arith, h.so_far);
                    vaddr =
                        omega (
                          arith,
                          h.vaddr,
                          whole_pages more,
                          to_long_is,
                          offset_is,
                          aligned_is more,
                        );
                    offset = omega arith;
                    begun = λ l. refl;
                    some_left = omega (arith, more, to_long_is);
                    not_more = omega (arith, h.not_more, to_long_is);
                    place = omega (arith, h.place, whole_pages more, to_long_is);
                    mapped = with_pages-IsMapped;
                    registered = omega (
                      arith,
                      h.registered,
                      chunk_length_bounds,
                      h.not_more,
                      to_long_is,
                      total_is us segs small,
                    );
                  },
                  fresh,
                );
                segs = segs;
                chunks =
                    next_pages-bounds chunk_pages_max p.next_chunk_pages max limit chunks.0
                      chunks.1;
                total = small;
                refs = omega (arith, refs);
              }),
          omega (arith, chunk_length_bounds, to_long_is, total_is us segs small),
        )
        | no last ↦ (
          rw (le→ltb (to_long (chunk_length p)) p.remaining (omega (arith, last, to_long_is)), at_i)
              (record {
                done =
                    AllFinished-append frame p.finished (with_pages s i (chunk_pages p) frames) done
                      (record {
                        segment = record {
                          offset_in_page = h.segment.offset_in_page;
                          aligned = h.segment.aligned;
                          nonempty = h.segment.nonempty;
                          in_memory = h.segment.in_memory;
                          page_count = h.segment.page_count;
                        };
                        all_pinned = omega (arith, h.so_far, last_pages (omega (arith, last)));
                        mapped = λ j l.
                            with_pages-IsMapped j
                              (omega (arith, l, last_pages (omega (arith, last))));
                      });
                going = (
                  fresh,
                  omega (
                    arith,
                    h.registered,
                    h.not_more,
                    chunk_length_bounds,
                    last,
                    to_long_is,
                    total_is us segs small,
                    segs_length-append p.finished (with_pages s i (chunk_pages p) frames ∷ []),
                  ),
                );
                segs =
                    ap (λ t. t ++ user_segs ss)
                      (user_segs-append p.finished (with_pages s i (chunk_pages p) frames ∷ []))
                    ∙ append_assoc (user_segs p.finished) (user_segs (s ∷ [])) (user_segs ss)
                    ∙ segs;
                chunks =
                    next_pages-bounds chunk_pages_max p.next_chunk_pages max limit chunks.0
                      chunks.1;
                total = small;
                refs = omega (
                  arith,
                  refs,
                  pinned_total-append p.finished (with_pages s i (chunk_pages p) frames ∷ []),
                );
              }),
          omega (arith, chunk_length_bounds, to_long_is, total_is us segs small),
        )
      ]
