-- ===== src/Early/Find.antt =====
-- libxen2mx/omx_recv.c: the search for the place of an early packet.
use xen2mx.Base.{
  ℕ, suc, ◌+◌, ◌*◌, ◌<◌, ◌≡◌, refl, ap, ◌∙◌, ◌⊎◌, inl, inr, List, [], ◌∷◌, ◌++◌, Option, none, some,
  true, false, Bool-cases, arith, length, if◌then◌else◌, lt→ltb, le→ltb,
}
use native.Mathlib.Decide.{dec_lt}
use xen2mx.Seqnum.{seqnum_distance}
use xen2mx.Early.{Packet, EarlyPacket, is_medium_frag, find_back}
use xen2mx.Early.Order.{key, Below, Above, Descending, Below-trans}

-- Two packets of one sequence number are both medium fragments or both not.
abbrev pub Agrees : ℕ → Packet → List EarlyPacket → Type 0
Agrees next msg [] = Unit {0}
Agrees next msg (p ∷ ps) =
    (p.msg.frag_seqnum < 256)
    × (seqnum_distance p.msg.seqnum next ≡ seqnum_distance msg.seqnum next
        → is_medium_frag p.msg.type ≡ is_medium_frag msg.type)
    × Agrees next msg ps

-- The place found in a reversed queue: behind every packet before it, in front of those after it.
pub record Place (next : ℕ) (msg : Packet) (rev : List EarlyPacket) (out : Option ℕ) : Type 0 where
  pub late : List EarlyPacket
  pub early : List EarlyPacket
  pub result : out ≡ some (length early)
  pub split : late ++ early ≡ rev
  pub above : Above next (key next msg) late
  pub below : Below next (key next msg) early

-- A packet of the same place is there.
pub record Duplicate (next : ℕ) (msg : Packet) (rev : List EarlyPacket) (out : Option ℕ)
    : Type 0 where
  pub late : List EarlyPacket
  pub early : List EarlyPacket
  pub packet : EarlyPacket
  pub result : out ≡ none
  pub split : late ++ (packet ∷ early) ≡ rev
  pub same : key next packet.msg ≡ key next msg

module _ (next : ℕ) (msg : Packet) (c : EarlyPacket) (before : List EarlyPacket) where
  abbrev Found : Option ℕ → Type 0
  Found out = Place next msg (c ∷ before) out ⊎ Duplicate next msg (c ∷ before) out

  here :
      key next c.msg < key next msg
      → Below next (key next c.msg) before
      → Found (some (suc (length before)))
  here h b = inl (record {
    late = [];
    early = c ∷ before;
    result = refl;
    split = refl;
    above = tt;
    below = (h, Below-trans next (key next c.msg) (key next msg) before h b);
  })

  further :
      (out : Option ℕ)
      → key next msg < key next c.msg
      → Place next msg before out ⊎ Duplicate next msg before out
      → Found out
  further out h (inl p) = inl (record {
    late = c ∷ p.late;
    early = p.early;
    result = p.result;
    split = ap (◌∷◌ c) p.split;
    above = (h, p.above);
    below = p.below;
  })
  further out h (inr d) = inr (record {
    late = c ∷ d.late;
    early = d.early;
    packet = d.packet;
    result = d.result;
    split = ap (◌∷◌ c) d.split;
    same = d.same;
  })

  dropped : key next c.msg ≡ key next msg → Found none
  dropped e =
      inr (record { late = []; early = before; packet = c; result = refl; split = refl; same = e })

key_frag :
    (next : ℕ) (p : Packet)
    → is_medium_frag p.type ≡ true
    → key next p ≡ 256 * seqnum_distance p.seqnum next + p.frag_seqnum
key_frag next p h = rw h

key_whole :
    (next : ℕ) (p : Packet)
    → is_medium_frag p.type ≡ false
    → key next p ≡ 256 * seqnum_distance p.seqnum next
key_whole next p h = omega (arith, ap (λ b. if b then p.frag_seqnum else 0) h)

key-lt :
    (next : ℕ) (p q : Packet)
    → p.frag_seqnum < 256
    → seqnum_distance p.seqnum next < seqnum_distance q.seqnum next
    → key next p < key next q
key-lt next p q h lt = ground arith

pub find_back_lem :
    (next : ℕ) (msg : Packet) (rev : List EarlyPacket)
    → msg.frag_seqnum < 256
    → Agrees next msg rev
    → Descending next rev
    → Place next msg rev (find_back next msg rev) ⊎ Duplicate next msg rev (find_back next msg rev)
unfolding find_back
find_back_lem next msg [] f a d =
    inl (record { late = []; early = []; result = refl; split = refl; above = tt; below = tt })
find_back_lem next msg (c ∷ before) f (g, agree, a) (b, d) =
    let ih = find_back_lem next msg before f a d in
    let i : ℕ = seqnum_distance msg.seqnum next in
    let j : ℕ = seqnum_distance c.msg.seqnum next in
    elim (dec_lt j i) [
      | yes lt ↦ rw (lt→ltb j i lt) (here next msg c before (key-lt next c.msg msg g lt) b)
      | no ge ↦ elim (dec_lt i j) [
        | yes gt ↦
            rw (le→ltb j i (omega arith), lt→ltb i j gt)
              (further next msg c before _ (key-lt next msg c.msg f gt) ih)
        | no eq ↦
            let same : j ≡ i = omega arith in
            elim (Bool-cases (is_medium_frag msg.type)) [
              | inr whole ↦
                  rw (le→ltb j i (omega arith), le→ltb i j (omega arith), whole)
                    (dropped next msg c before (
                      omega (
                        arith,
                        same,
                        key_whole next c.msg (agree same ∙ whole),
                        key_whole next msg whole,
                      )))
              | inl frag ↦
                  let kc = key_frag next c.msg (agree same ∙ frag) in
                  let km = key_frag next msg frag in
                  rw (le→ltb j i (omega arith), le→ltb i j (omega arith), frag)
                    (elim (dec_lt c.msg.frag_seqnum msg.frag_seqnum) [
                      | yes lower ↦
                          rw (lt→ltb c.msg.frag_seqnum msg.frag_seqnum lower)
                            (here next msg c before (omega (arith, same, kc, km)) b)
                      | no not_lower ↦ elim (dec_lt msg.frag_seqnum c.msg.frag_seqnum) [
                        | yes higher ↦
                            rw
                              (
                                le→ltb c.msg.frag_seqnum msg.frag_seqnum (omega arith),
                                lt→ltb msg.frag_seqnum c.msg.frag_seqnum higher,
                              )
                              (further next msg c before _ (omega (arith, same, kc, km)) ih)
                        | no equal ↦
                            rw
                              (
                                le→ltb c.msg.frag_seqnum msg.frag_seqnum (omega arith),
                                le→ltb msg.frag_seqnum c.msg.frag_seqnum (omega arith),
                              )
                              (dropped next msg c before (omega (arith, same, kc, km)))
                      ]
                    ])
            ]
      ]
    ]
