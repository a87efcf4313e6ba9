-- ===== src/Early/Laws.antt =====
-- libxen2mx/omx_recv.c: an early packet goes to its place in the queue, and once only.
use xen2mx.Base.{
  ℕ, ◌<◌, ◌≡◌, refl, sym, ap, ◌∙◌, subst, ◌⊎◌, inl, inr, List, [], ◌∷◌, ◌++◌, some, true, arith,
  length, append_assoc, take, drop, take-append_le, take_all, drop-append_ge,
}
use xen2mx.Early.{
  tiny, small, medium_frag, rndv, notify, Packet, EarlyPacket, find_previous, reverse_onto,
  copy_packet, postpone,
}
use xen2mx.Early.Order.{
  key, Below, Above, Ascending, Ascending-insert, forward, forward-append, length-forward,
  forward-reverse, forward-Below, forward-Above, Descending-forward,
}
use xen2mx.Early.Find.{Agrees, find_back_lem}

Agrees-reverse_onto :
    (next : ℕ) (msg : Packet) (ps acc : List EarlyPacket)
    → Agrees next msg ps
    → Agrees next msg acc
    → Agrees next msg (reverse_onto ps acc)
Agrees-reverse_onto next msg [] acc a b = b
Agrees-reverse_onto next msg (p ∷ ps) acc (f, g, a) b =
    Agrees-reverse_onto next msg ps (p ∷ acc) a (f, g, b)

take-front {ℓ} : {A : Type ℓ} (n : ℕ) (xs ys : List A) → length xs ≡ n → take n (xs ++ ys) ≡ xs
take-front n xs ys e = take-append_le n xs ys (omega arith) ∙ take_all n xs (omega arith)

drop-front {ℓ} : {A : Type ℓ} (n : ℕ) (xs ys : List A) → length xs ≡ n → drop n (xs ++ ys) ≡ ys
drop-front n xs ys e =
    drop-append_ge n xs ys (omega arith) ∙ ap (λ k. drop k ys) {y = 0} (omega arith)

-- The packet's place in the queue: behind `front`, before `back`.
record Gap (next : ℕ) (msg : Packet) (queue : List EarlyPacket) (n : ℕ) : Type 0 where
  front : List EarlyPacket
  back : List EarlyPacket
  split : front ++ back ≡ queue
  taken : take n queue ≡ front
  dropped_rest : drop n queue ≡ back
  below : Below next (key next msg) front
  above : Above next (key next msg) back

Gap-place :
    (next : ℕ) (msg : Packet) (queue late early : List EarlyPacket)
    → late ++ early ≡ reverse_onto queue []
    → Above next (key next msg) late
    → Below next (key next msg) early
    → Gap next msg queue (length early)
Gap-place next msg queue late early e a b =
    let whole : forward early ++ forward late ≡ queue =
      sym (forward-append late early) ∙ ap forward e ∙ forward-reverse queue in
    record {
      front = forward early;
      back = forward late;
      split = whole;
      taken =
          ap (take (length early)) (sym whole)
          ∙ take-front (length early) (forward early) (forward late) (length-forward early);
      dropped_rest =
          ap (drop (length early)) (sym whole)
          ∙ drop-front (length early) (forward early) (forward late) (length-forward early);
      below = forward-Below next (key next msg) early b;
      above = forward-Above next (key next msg) late a;
    }

-- The packet is new and now stands in its place.
pub record Inserted (next : ℕ) (msg : Packet) (queue out : List EarlyPacket) : Type 0 where
  pub front : List EarlyPacket
  pub back : List EarlyPacket
  pub early : EarlyPacket
  pub split : front ++ back ≡ queue
  pub result : out ≡ front ++ (early ∷ back)
  pub same_msg : early.msg ≡ msg
  pub below : Below next (key next msg) front
  pub above : Above next (key next msg) back
  pub ascending : Ascending next out

-- A packet of the same place is in the queue, which stays as it was.
pub record Known (next : ℕ) (msg : Packet) (queue out : List EarlyPacket) : Type 0 where
  pub front : List EarlyPacket
  pub back : List EarlyPacket
  pub packet : EarlyPacket
  pub split : front ++ (packet ∷ back) ≡ queue
  pub same : key next packet.msg ≡ key next msg
  pub result : out ≡ queue

copy_packet-msg :
    (msg : Packet) → (e : EarlyPacket) × (copy_packet msg true msg.type ≡ some e) × (e.msg ≡ msg)
unfolding copy_packet
copy_packet-msg msg =
    elim msg.type as (λ t. (e : EarlyPacket) × (copy_packet msg true t ≡ some e) × (e.msg ≡ msg)) [
      | tiny ↦ (_, refl, refl)
      | small ↦ (_, refl, refl)
      | medium_frag ↦ (_, refl, refl)
      | rndv ↦ (_, refl, refl)
      | notify ↦ (_, refl, refl)
    ]

-- In a queue in order, where memory can be had, fragment numbers are below 256 and packets of one
-- sequence number are all medium fragments or all not, an early packet is put in its place unless
-- a packet of that place is there already, and then the queue stays as it was. The queue with the
-- packet is in order again, with every place once.
pub postpone_lem :
    (next : ℕ) (queue : List EarlyPacket) (msg : Packet)
    → Ascending next queue
    → msg.frag_seqnum < 256
    → Agrees next msg queue
    → Inserted next msg queue (postpone next queue msg true true)
      ⊎ Known next msg queue (postpone next queue msg true true)
unfolding postpone find_previous
postpone_lem next queue msg asc f a =
    let rev : List EarlyPacket = reverse_onto queue [] in
    elim (find_back_lem next msg rev f (Agrees-reverse_onto next msg queue [] a tt)
      (Descending-forward next rev (subst (Ascending next) (sym (forward-reverse queue)) asc))) [
        | inl p ↦
            let gap : Gap next msg queue (length p.early) =
              Gap-place next msg queue p.late p.early p.split p.above p.below in
            let (e, copied, same) = copy_packet-msg msg in
            let out : postpone next queue msg true true ≡ gap.front ++ (e ∷ gap.back) =
              rw (p.result, copied, gap.taken, gap.dropped_rest) in
            inl (record {
              front = gap.front;
              back = gap.back;
              early = e;
              split = gap.split;
              result = out;
              same_msg = same;
              below = gap.below;
              above = gap.above;
              ascending = subst (Ascending next) (sym out) (
                  Ascending-insert next gap.front gap.back e
                    (subst (Ascending next) (sym gap.split) asc)
                    (subst (λ m. Below next (key next m) gap.front) (sym same) gap.below)
                    (subst (λ m. Above next (key next m) gap.back) (sym same) gap.above));
            })
        | inr d ↦ inr (record {
          front = forward d.early;
          back = forward d.late;
          packet = d.packet;
          split =
              sym (append_assoc (forward d.early) (d.packet ∷ []) (forward d.late))
              ∙ sym (forward-append d.late (d.packet ∷ d.early))
              ∙ ap forward d.split
              ∙ forward-reverse queue;
          same = d.same;
          result = rw d.result;
        })
      ]
