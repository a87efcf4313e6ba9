-- ===== src/UserRegion/Store.antt =====
-- Memory as a function of the address, and bytes stored in it one after the other.
use native.Mathlib.Decide.{ℕ_discrete}
use xen2mx.Base.{
  ℕ, zero, suc, List, [], ◌∷◌, ◌++◌, ◌+◌, ◌<◌, ◌≡◌, ◌≢◌, refl, sym, ap, ap₂, ◌∙◌, update,
  update_self, update_ne, arith,
}

abbrev pub Memory : Type 0
Memory = ℕ → ℕ

-- n bytes, each at its address
unfoldable pub store : (ℕ → ℕ) → (ℕ → ℕ) → ℕ → Memory → Memory
store a f zero mem = mem
store a f (suc n) mem = update (store a f n mem) (a n) (f n)

pub store-ext :
    (a b f g : ℕ → ℕ) (n : ℕ) (mem : Memory)
    → ((k : ℕ) → k < n → a k ≡ b k)
    → ((k : ℕ) → k < n → f k ≡ g k)
    → store a f n mem ≡ store b g n mem
unfolding store
store-ext a b f g zero mem p q = refl
store-ext a b f g (suc n) mem p q =
    rw
      (
        store-ext a b f g n mem (λ k h. p k (omega arith)) (λ k h. q k (omega arith)),
        p n (omega arith),
        q n (omega arith),
      )
      refl

pub store-add :
    (a f : ℕ → ℕ) (m n : ℕ) (mem : Memory)
    → store a f (m + n) mem ≡ store (λ k. a (m + k)) (λ k. f (m + k)) n (store a f m mem)
unfolding store
store-add a f m zero mem = ap (λ t. store a f t mem) (omega arith)
store-add a f m (suc n) mem =
    ap (λ t. store a f t mem) (let e : m + suc n ≡ suc (m + n) = omega arith in e)
    ∙ rw (store-add a f m n mem) refl

-- Stores of two pieces one behind the other.
pub store-pieces :
    (a b f g c h : ℕ → ℕ) (m n all : ℕ) (mem : Memory)
    → m + n ≡ all
    → ((k : ℕ) → k < m → a k ≡ c k)
    → ((k : ℕ) → k < m → f k ≡ h k)
    → ((k : ℕ) → k < n → b k ≡ c (m + k))
    → ((k : ℕ) → k < n → g k ≡ h (m + k))
    → store b g n (store a f m mem) ≡ store c h all mem
store-pieces a b f g c h m n all mem e p q r s =
    ap (store b g n) (store-ext a c f h m mem p q)
    ∙ store-ext b (λ k. c (m + k)) g (λ k. h (m + k)) n (store c h m mem) r s
    ∙ sym (store-add c h m n mem)
    ∙ ap (λ t. store c h t mem) e

-- An address that is not stored to keeps its byte.
pub store-other :
    (a f : ℕ → ℕ) (n : ℕ) (mem : Memory) (x : ℕ)
    → ((k : ℕ) → k < n → a k ≢ x)
    → store a f n mem x ≡ mem x
unfolding store
store-other a f zero mem x h = refl
store-other a f (suc n) mem x h =
    ground (arith, store-other a f n mem x (λ k l. h k (omega arith)), h n (omega arith))

-- Where the addresses differ, each has its byte.
pub store-at :
    (a f : ℕ → ℕ) (n : ℕ) (mem : Memory) (k : ℕ)
    → ((j : ℕ) → j < n → a j ≡ a k → j ≡ k)
    → k < n
    → store a f n mem (a k) ≡ f k
unfolding store
store-at a f (suc n) mem k h l = elim (ℕ_discrete n k) [
  | yes e ↦ rw (← e) (update_self (store a f n mem) (a n) (f n))
  | no e ↦
      update_ne (store a f n mem) (a n) (a k) (f n) (λ p. e (h n (omega arith) p))
      ∙ store-at a f n mem k (λ j m. h j (omega arith)) (omega arith)
]
store-at a f zero mem k h l = absurd (omega arith)

-- n bytes, each from its address
unfoldable pub load : (ℕ → ℕ) → ℕ → Memory → List ℕ
load a zero mem = []
load a (suc n) mem = mem (a 0) ∷ load (λ k. a (suc k)) n mem

pub load-ext :
    (a b : ℕ → ℕ) (n : ℕ) (mem : Memory)
    → ((k : ℕ) → k < n → a k ≡ b k)
    → load a n mem ≡ load b n mem
unfolding load
load-ext a b zero mem p = refl
load-ext a b (suc n) mem p =
    ap₂ ◌∷◌ (ap mem (p 0 (omega arith)))
      (load-ext (λ k. a (suc k)) (λ k. b (suc k)) n mem (λ k h. p (suc k) (omega arith)))

-- Two pieces one behind the other.
pub load-pieces :
    (a b c : ℕ → ℕ) (m n all : ℕ) (mem : Memory)
    → m + n ≡ all
    → ((k : ℕ) → k < m → a k ≡ c k)
    → ((k : ℕ) → k < n → b k ≡ c (m + k))
    → load a m mem ++ load b n mem ≡ load c all mem
unfolding load
load-pieces a b c zero n all mem e p q =
    load-ext b c n mem (λ k h. q k h ∙ ap c (omega arith))
    ∙ ap (λ t. load c t mem) (omega (arith, e))
load-pieces a b c (suc m) n zero mem e p q = absurd (omega (arith, e))
load-pieces a b c (suc m) n (suc all) mem e p q = ap₂ ◌∷◌ (ap mem (p 0 (omega arith))) (
    load-pieces (λ k. a (suc k)) b (λ k. c (suc k)) m n all mem (omega (arith, e))
      (λ k h. p (suc k) (omega arith)) (λ k h. q k h ∙ ap c (omega arith)))
