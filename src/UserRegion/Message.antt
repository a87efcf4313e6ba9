-- ===== src/UserRegion/Message.antt =====
-- driver/linux/omx_reg.c and omx_pull.c: the replies of a pull, each of which fills its part of the
-- region, in any order.
use xen2mx.Base.{
  ℕ, ◌+◌, ◌-◌, ◌<◌, ◌≤◌, ◌≡◌, ◌≢◌, refl, ◌∙◌, subst, List, [], ◌∷◌, inl, inr, Bool, false,
  Bool-cases, ◌&&◌, ◌||◌, ltb, leb, if◌then◌else◌, arith,
}
use xen2mx.UserRegion.Store.{Memory, store, store-at, store-other}
use xen2mx.UserRegion.{Segment, full_length, fill_pages, FillResult, filled, invalid, bug, address}
use xen2mx.UserRegion.Fill.{fill_pages_lem}

-- A reply: msg_offset, frame_length and the packet
pub record Reply : Type 0 where
  pub msg_offset : ℕ
  pub frame_length : ℕ
  pub skb : ℕ → ℕ

abbrev pub then_fill : FillResult → (Memory → FillResult) → FillResult
then_fill (filled mem) next = next mem
then_fill invalid next = invalid
then_fill bug next = bug

-- Reply after reply is put into the region; one that is refused ends the pull.
unfoldable pub receive : ℕ → List Segment → List Reply → Memory → FillResult
receive header ss [] mem = filled mem
receive header ss (r ∷ rs) mem =
    then_fill (fill_pages header ss r.msg_offset r.skb r.frame_length mem)
      λ mem'. receive header ss rs mem'

-- The places of the region differ.
abbrev pub AreDistinct : List Segment → Type 0
AreDistinct ss =
    (j k : ℕ) → j < full_length ss → k < full_length ss → address ss j ≡ address ss k → j ≡ k

-- The reply lies in the message and carries its bytes.
abbrev pub Carries : ℕ → List Segment → (ℕ → ℕ) → Reply → Type 0
Carries header ss msg r =
    (r.msg_offset + r.frame_length ≤ full_length ss)
    × ((k : ℕ) → k < r.frame_length → r.skb (header + k) ≡ msg (r.msg_offset + k))

abbrev pub AllCarry : ℕ → List Segment → (ℕ → ℕ) → List Reply → Type 0
AllCarry header ss msg [] = Unit {0}
AllCarry header ss msg (r ∷ rs) = Carries header ss msg r × AllCarry header ss msg rs

-- Whether a reply has the byte of the message at a place.
abbrev pub has : ℕ → Reply → Bool
has k r = leb r.msg_offset k && ltb k (r.msg_offset + r.frame_length)

abbrev pub is_covered : ℕ → List Reply → Bool
is_covered k [] = false
is_covered k (r ∷ rs) = has k r || is_covered k rs

-- The region after one fill.
stored-byte :
    (header : ℕ) (ss : List Segment) (msg : ℕ → ℕ) (r : Reply) (mem : Memory) (k : ℕ)
    → AreDistinct ss
    → Carries header ss msg r
    → k < full_length ss
    → store
        (λ j. address ss (r.msg_offset + j))
        (λ j. r.skb (header + j))
        r.frame_length
        mem
        (address ss k)
      ≡ (if has k r then msg k else mem (address ss k))
stored-byte header ss msg r mem k d c h = elim (Bool-cases (has k r)) [
  | inl inside ↦
      let j = k - r.msg_offset in
      let at_k : r.msg_offset + j ≡ k = ground arith in
      rw inside (
        subst
          (λ t.
            store (λ j. address ss (r.msg_offset + j)) (λ j. r.skb (header + j)) r.frame_length mem
              (address ss t)
            ≡ msg t)
          at_k
          (store-at (λ j. address ss (r.msg_offset + j)) (λ j. r.skb (header + j)) r.frame_length
              mem j
              (λ i l e. omega (
                arith,
                d (r.msg_offset + i) (r.msg_offset + j) (omega (arith, c.0))
                    (omega (arith, h, at_k)) e,
              ))
              (ground arith)
            ∙ c.1 j (ground arith)))
  | inr outside ↦ rw outside (
      store-other _ _ r.frame_length mem (address ss k) λ i l e.
        let same : r.msg_offset + i ≡ k = d (r.msg_offset + i) k (omega (arith, c.0)) h e in
        ground (arith, same, outside))
]

-- What the region holds after some replies.
abbrev pub Holds : List Segment → (ℕ → ℕ) → List Reply → Memory → Memory → Type 0
Holds ss msg rs mem mem' =
    ((k : ℕ)
      → k < full_length ss
      → mem' (address ss k) ≡ (if is_covered k rs then msg k else mem (address ss k)))
    × ((x : ℕ) → ((k : ℕ) → k < full_length ss → address ss k ≢ x) → mem' x ≡ mem x)

-- In a region whose places differ, replies that lie in a message of its length and carry its bytes,
-- in any order and repeated or not, are all taken: the region then holds the bytes of the message
-- that they cover, its other bytes and all other memory are as before.
pub receive-Holds :
    (header : ℕ) (ss : List Segment) (msg : ℕ → ℕ) (rs : List Reply) (mem : Memory)
    → AreDistinct ss
    → AllCarry header ss msg rs
    → (mem' : Memory) × (receive header ss rs mem ≡ filled mem') × Holds ss msg rs mem mem'
unfolding receive
receive-Holds header ss msg [] mem d c = (mem, refl, (λ k h. refl, λ x h. refl))
receive-Holds header ss msg (r ∷ rs) mem d c =
    let stored =
      store (λ j. address ss (r.msg_offset + j)) (λ j. r.skb (header + j)) r.frame_length mem in
    let rest = receive-Holds header ss msg rs stored d c.1 in
    elim (fill_pages_lem header ss r.msg_offset r.skb r.frame_length mem) [
      | inr (over, e) ↦ absurd (omega (arith, over, c.0.0))
      | inl (fits, e) ↦ (
        rest.0,
        rw e rest.1,
        (
          λ k h. ground (arith, rest.2.0 k h, stored-byte header ss msg r mem k d c.0 h),
          λ x h.
              rest.2.1 x h
              ∙ store-other _ _ r.frame_length mem x
                  (λ k l. h (r.msg_offset + k) (omega (arith, fits))),
        ),
      )
    ]
