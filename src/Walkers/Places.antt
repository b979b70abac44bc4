-- ===== src/Walkers/Places.antt =====
-- The address that a walker writes for a key has the bits of the key.
use Prim.Native.Nat.{bit_or}
use routing_table.Prelude.{
  ℕ, zero, suc, ◌+◌, ◌*◌, ◌-◌, ◌/◌, ◌%◌, ◌^◌, ◌≤◌, ◌<◌, ◌≡◌, ◌≢◌, refl, ◌∙◌, Bool, true, false,
  ◌&&◌, List, [], ◌∷◌, length, get_or, set, take, replicate, get_or-replicate, length-set,
  get_or-set_self, get_or-set_ne, ltb, ◌==◌, ==_iff, if◌then◌else◌, arith, Bool-cases, inl, inr,
}
use routing_table.Prelude.Table.{holds_to, holds_to-at}
use routing_table.Utils.{octet_bits}
use routing_table.Utils.Laws.{length-octet_bits}
use routing_table.Trie.Reads.{same_bits, same_bits-eq}
use routing_table.Family.{next_addr}
use routing_table.Walkers.Keys.{write_bits}

-- `x |= 1 << (7 - k)`, with the bits of an octet counted from the most significant one.
abbrev set_bit : ℕ → ℕ → ℕ
set_bit x k = bit_or x (2 ^ (7 - k))

abbrev sets_bit : ℕ → ℕ → Bool
sets_bit x k =
    ltb (set_bit x k) 256 && same_bits (octet_bits (set_bit x k)) (set (octet_bits x) k true)

bit_table : holds_to (λ x. holds_to (λ k. sets_bit x k) 8) 256 ≡ true
unfolding holds_to octet_bits same_bits
bit_table = refl

set_bit-octet_bits :
    (x k : ℕ)
    → x < 256
    → k < 8
    → (set_bit x k < 256) × (octet_bits (set_bit x k) ≡ set (octet_bits x) k true)
set_bit-octet_bits x k hx hk =
    let h =
      holds_to-at (λ k'. sets_bit x k') 8 k hk
        (holds_to-at (λ x'. holds_to (λ k'. sets_bit x' k') 8) 256 x hx bit_table) in
    (ground (arith, h), same_bits-eq _ _ (ground (arith, h)))

-- The bit of an address at a depth.
abbrev pub bit_at : ℕ → List ℕ → Bool
bit_at d addr = get_or (octet_bits (get_or addr (d / 8) 0)) (d % 8) false

-- Every octet is a byte.
abbrev pub AllBytes : List ℕ → Type 0
AllBytes addr = (i : ℕ) → get_or addr i 0 < 256

module _ (addr : List ℕ) (bytes : AllBytes addr) (d : ℕ) (b : Bool)
    (inside : d / 8 < length addr) where
  here : ℕ
  here = get_or addr (d / 8) 0

  small : d % 8 < 8
  small = omega arith

  next_addr-AllBytes : AllBytes (next_addr addr d b)
  unfolding next_addr here
  next_addr-AllBytes i = elim (Bool-cases b) [
    | inr e ↦ rw e (bytes i)
    | inl e ↦ elim (Bool-cases (d / 8 == i)) [
      | inl z ↦
          let same : d / 8 ≡ i = (==_iff (d / 8) i).0 z in
          rw (e, ← same, get_or-set_self addr (d / 8) (set_bit here (d % 8)) 0 inside)
            (set_bit-octet_bits here (d % 8) (bytes (d / 8)) small).0
      | inr z ↦
          rw (e, get_or-set_ne addr (set_bit here (d % 8)) 0 (λ (same : d / 8 ≡ i). ground arith))
            (bytes i)
    ]
  ]

  -- The bit at the depth is written, and no other.
  next_addr-bit_at :
      (e : ℕ) → bit_at e (next_addr addr d b) ≡ (if b && (d == e) then true else bit_at e addr)
  unfolding next_addr here
  next_addr-bit_at e = elim (Bool-cases b) [
    | inr z ↦ rw z
    | inl z ↦ elim (Bool-cases (d / 8 == e / 8)) [
      | inr other ↦
          let ne : d / 8 ≢ e / 8 = λ same. ground arith in
          let apart : (d == e) ≡ false = ground arith in
          rw (z, apart, get_or-set_ne addr (set_bit here (d % 8)) 0 ne)
      | inl same ↦
          let eq : d / 8 ≡ e / 8 = (==_iff (d / 8) (e / 8)).0 same in
          let written = (set_bit-octet_bits here (d % 8) (bytes (d / 8)) small).1 in
          rw (z, ← eq, get_or-set_self addr (d / 8) (set_bit here (d % 8)) 0 inside, written)
            (elim (Bool-cases (d == e)) [
              | inl one ↦
                  let k : d ≡ e = (==_iff d e).0 one in
                  rw (one, ← k)
                    (get_or-set_self (octet_bits here) (d % 8) true false
                      (omega (arith, length-octet_bits here)))
              | inr two ↦
                  let ne : d % 8 ≢ e % 8 = λ k. ground arith in
                  rw (two, get_or-set_ne (octet_bits here) true false ne)
            ])
    ]
  ]

next_addr-length : (addr : List ℕ) (d : ℕ) (b : Bool) → length (next_addr addr d b) ≡ length addr
unfolding next_addr
next_addr-length addr d b = elim (Bool-cases b) [
  | inl e ↦ rw e (length-set addr (d / 8) _)
  | inr e ↦ rw e
]

-- The octets above the depth stay.
pub write_bits-above :
    (addr : List ℕ) (d : ℕ) (key : List Bool) (i : ℕ)
    → i < d / 8
    → get_or (write_bits addr d key) i 0 ≡ get_or addr i 0
unfolding write_bits next_addr
write_bits-above addr d [] i h = refl
write_bits-above addr d (b ∷ key) i h =
    let ne : d / 8 ≢ i = λ same. omega arith in
    write_bits-above (next_addr addr d b) (d + 1) key i (omega arith)
    ∙ elim (Bool-cases b) [ inl e ↦ rw (e, get_or-set_ne addr _ 0 ne) | inr e ↦ rw e ]

-- The bits above the depth stay, and those from the depth on are the key, if they were zero.
write_bits-before :
    (addr : List ℕ) (d : ℕ) (key : List Bool) (e : ℕ)
    → AllBytes addr
    → d + length key ≤ 8 * length addr
    → e < d
    → bit_at e (write_bits addr d key) ≡ bit_at e addr
unfolding write_bits
write_bits-before addr d [] e bytes fits h = refl
write_bits-before addr d (b ∷ key) e bytes fits h =
    let inside : d / 8 < length addr = omega arith in
    let apart : (d == e) ≡ false = ground arith in
    write_bits-before (next_addr addr d b) (d + 1) key e (next_addr-AllBytes addr bytes d b inside)
      (omega (arith, next_addr-length addr d b)) (omega arith)
    ∙ next_addr-bit_at addr bytes d b inside e
    ∙ ground arith

pub write_bits-key :
    (addr : List ℕ) (d : ℕ) (key : List Bool) (i : ℕ)
    → AllBytes addr
    → d + length key ≤ 8 * length addr
    → ((e : ℕ) → d ≤ e → bit_at e addr ≡ false)
    → i < length key
    → bit_at (d + i) (write_bits addr d key) ≡ get_or key i false
unfolding write_bits
write_bits-key addr d [] i bytes fits clear h = elim h [ ]
write_bits-key addr d (b ∷ key) zero bytes fits clear h =
    let inside : d / 8 < length addr = omega arith in
    let e : d + 0 ≡ d = omega arith in
    let self : (d == d) ≡ true = (==_iff d d).1 refl in
    rw e (
      write_bits-before (next_addr addr d b) (d + 1) key d
        (next_addr-AllBytes addr bytes d b inside) (omega (arith, next_addr-length addr d b))
        (omega arith)
      ∙ next_addr-bit_at addr bytes d b inside d
      ∙ ground (arith, clear d (omega arith), self))
write_bits-key addr d (b ∷ key) (suc i) bytes fits clear h =
    let inside : d / 8 < length addr = omega arith in
    let e : d + suc i ≡ d + 1 + i = omega arith in
    rw e (
      write_bits-key (next_addr addr d b) (d + 1) key i (next_addr-AllBytes addr bytes d b inside)
        (omega (arith, next_addr-length addr d b))
        (λ k le.
          let apart : (d == k) ≡ false = ground arith in
          next_addr-bit_at addr bytes d b inside k ∙ ground (arith, clear k (omega arith)))
        (omega arith))

-- The address of an entry: one octet, and zeros.
pub entry-AllBytes : (x n : ℕ) → x < 256 → AllBytes (x ∷ replicate n 0)
entry-AllBytes x n h zero = h
entry-AllBytes x n h (suc i) = omega (arith, get_or-replicate {A = ℕ} n i 0)

zero_bits : octet_bits 0 ≡ replicate 8 false
unfolding octet_bits
zero_bits = refl

pub entry-clear : (x n e : ℕ) → 8 ≤ e → bit_at e (x ∷ replicate n 0) ≡ false
entry-clear x n e h =
    let s : e / 8 ≡ suc (e / 8 - 1) = omega arith in
    rw (s, get_or-replicate {A = ℕ} n (e / 8 - 1) 0, zero_bits) (get_or-replicate 8 (e % 8) false)

-- The values of a function on the first numbers.
abbrev pub tabulate : (ℕ → Bool) → ℕ → List Bool
tabulate f zero = []
tabulate f (suc n) = f 0 ∷ tabulate (λ i. f (suc i)) n

pub take-tabulate :
    (key : List Bool) (f : ℕ → Bool) (n : ℕ)
    → length key ≤ n
    → ((i : ℕ) → i < length key → f i ≡ get_or key i false)
    → take (length key) (tabulate f n) ≡ key
take-tabulate [] f n h same = refl
take-tabulate (b ∷ key) f zero h same = elim h [ ]
take-tabulate (b ∷ key) f (suc n) h same = rw (
  same 0 (omega arith),
  take-tabulate key (λ i. f (suc i)) n (omega arith) (λ i lt. same (suc i) (omega arith)),
)
