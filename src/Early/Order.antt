-- ===== src/Early/Order.antt =====
-- libxen2mx/omx_recv.c: the order of the early queue.
use xen2mx.Base.{
  ℕ, ◌+◌, ◌*◌, ◌<◌, ◌≡◌, refl, sym, ap, ◌∙◌, List, [], ◌∷◌, ◌++◌, append_assoc, append-nil,
  if◌then◌else◌, arith, length, length-append,
}
use xen2mx.Seqnum.{seqnum_distance}
use xen2mx.Early.{Packet, EarlyPacket, is_medium_frag, reverse_onto}

-- The place in the order: the distance from the next sequence number to match, then the number of
-- the fragment, which is below 256.
abbrev pub key : ℕ → Packet → ℕ
key next p =
    256 * seqnum_distance p.seqnum next + (if is_medium_frag p.type then p.frag_seqnum else 0)

module _ (next : ℕ) where
  -- All are before, or after, a place.
  abbrev pub Below : ℕ → List EarlyPacket → Type 0
  Below k [] = Unit {0}
  Below k (p ∷ ps) = (key next p.msg < k) × Below k ps

  abbrev pub Above : ℕ → List EarlyPacket → Type 0
  Above k [] = Unit {0}
  Above k (p ∷ ps) = (k < key next p.msg) × Above k ps

  -- In increasing order, no place twice.
  abbrev pub Ascending : List EarlyPacket → Type 0
  Ascending [] = Unit {0}
  Ascending (p ∷ ps) = Above (key next p.msg) ps × Ascending ps

  abbrev pub Descending : List EarlyPacket → Type 0
  Descending [] = Unit {0}
  Descending (p ∷ ps) = Below (key next p.msg) ps × Descending ps

  pub Below-trans : (j k : ℕ) (ps : List EarlyPacket) → j < k → Below j ps → Below k ps
  Below-trans j k [] h b = tt
  Below-trans j k (p ∷ ps) h b = (omega (arith, b.0), Below-trans j k ps h b.1)

  Below-append : (k : ℕ) (ps qs : List EarlyPacket) → Below k (ps ++ qs) → Below k ps × Below k qs
  Below-append k [] qs b = (tt, b)
  Below-append k (p ∷ ps) qs b = let (c, d) = Below-append k ps qs b.1 in ((b.0, c), d)

  Above-append : (k : ℕ) (ps qs : List EarlyPacket) → Above k (ps ++ qs) → Above k ps × Above k qs
  Above-append k [] qs b = (tt, b)
  Above-append k (p ∷ ps) qs b = let (c, d) = Above-append k ps qs b.1 in ((b.0, c), d)

  Above-join : (k : ℕ) (ps qs : List EarlyPacket) → Above k ps → Above k qs → Above k (ps ++ qs)
  Above-join k [] qs a b = b
  Above-join k (p ∷ ps) qs a b = (a.0, Above-join k ps qs a.1 b)

  pub Below-join : (k : ℕ) (ps qs : List EarlyPacket) → Below k ps → Below k qs → Below k (ps ++ qs)
  Below-join k [] qs a b = b
  Below-join k (p ∷ ps) qs a b = (a.0, Below-join k ps qs a.1 b)

  -- The last of an ascending list is after the others.
  Ascending-last :
      (ps : List EarlyPacket) (c : EarlyPacket)
      → Ascending (ps ++ (c ∷ []))
      → Below (key next c.msg) ps × Ascending ps
  Ascending-last [] c a = (tt, tt)
  Ascending-last (p ∷ ps) c a =
      let (above, last) = Above-append (key next p.msg) ps (c ∷ []) a.0 in
      let (b, asc) = Ascending-last ps c a.1 in ((last.0, b), (above, asc))

  -- A packet goes in order between those before it and those after it.
  pub Ascending-insert :
      (front back : List EarlyPacket) (e : EarlyPacket)
      → Ascending (front ++ back)
      → Below (key next e.msg) front
      → Above (key next e.msg) back
      → Ascending (front ++ (e ∷ back))
  Ascending-insert [] back e a b c = (c, a)
  Ascending-insert (p ∷ front) back e a b c =
      let (f, g) = Above-append (key next p.msg) front back a.0 in
      (
        Above-join (key next p.msg) front (e ∷ back) f (b.0, g),
        Ascending-insert front back e a.1 b.1 c,
      )

-- A reversed queue in its order.
abbrev pub forward : List EarlyPacket → List EarlyPacket
forward [] = []
forward (p ∷ ps) = forward ps ++ (p ∷ [])

pub forward-append : (ps qs : List EarlyPacket) → forward (ps ++ qs) ≡ forward qs ++ forward ps
forward-append [] qs = sym (append-nil (forward qs))
forward-append (p ∷ ps) qs =
    ap (λ t. t ++ (p ∷ [])) (forward-append ps qs) ∙ append_assoc (forward qs) (forward ps) (p ∷ [])

pub length-forward : (ps : List EarlyPacket) → length (forward ps) ≡ length ps
length-forward [] = refl
length-forward (p ∷ ps) = omega (arith, length-append (forward ps) (p ∷ []), length-forward ps)

forward-reverse_onto :
    (queue acc : List EarlyPacket) → forward (reverse_onto queue acc) ≡ forward acc ++ queue
forward-reverse_onto [] acc = sym (append-nil (forward acc))
forward-reverse_onto (p ∷ ps) acc =
    forward-reverse_onto ps (p ∷ acc) ∙ append_assoc (forward acc) (p ∷ []) ps

pub forward-reverse : (queue : List EarlyPacket) → forward (reverse_onto queue []) ≡ queue
forward-reverse queue = forward-reverse_onto queue []

module _ (next : ℕ) where
  Below-forward : (k : ℕ) (ps : List EarlyPacket) → Below next k (forward ps) → Below next k ps
  Below-forward k [] b = tt
  Below-forward k (p ∷ ps) b =
      let (c, d) = Below-append next k (forward ps) (p ∷ []) b in (d.0, Below-forward k ps c)

  pub forward-Below : (k : ℕ) (ps : List EarlyPacket) → Below next k ps → Below next k (forward ps)
  forward-Below k [] b = tt
  forward-Below k (p ∷ ps) b =
      Below-join next k (forward ps) (p ∷ []) (forward-Below k ps b.1) (b.0, tt)

  pub forward-Above : (k : ℕ) (ps : List EarlyPacket) → Above next k ps → Above next k (forward ps)
  forward-Above k [] b = tt
  forward-Above k (p ∷ ps) b =
      Above-join next k (forward ps) (p ∷ []) (forward-Above k ps b.1) (b.0, tt)

  pub Descending-forward :
      (ps : List EarlyPacket) → Ascending next (forward ps) → Descending next ps
  Descending-forward [] a = tt
  Descending-forward (p ∷ ps) a =
      let (b, asc) = Ascending-last next (forward ps) p a in
      (Below-forward (key next p.msg) ps b, Descending-forward ps asc)
