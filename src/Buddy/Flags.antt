-- ===== src/Buddy/Flags.antt =====
-- The bit set of src/allo_buddy.c: each node of the tree has a bit of its own.
use liballo.Base.{
  ℕ, zero, suc, ◌+◌, ◌-◌, ◌/◌, ◌%◌, ◌^◌, ◌<◌, ◌≡◌, refl, sym, ap, ◌≢◌, inl, inr, Bool, true, false,
  ◌&&◌, arith, ltb, ◌==◌, ==_iff, Bool-cases, if◌then◌else◌, bit_and, bit_or,
}
use native.Mathlib.Nat.{one-le-pow, pow-suc, pow-le-pow_right}
use native.Mathlib.Decide.{dec_lt}
use liballo.Buddy.{set_bit, clear_bit, get_bit, node_index}

-- A test of the first `n` numbers, and what it shows.
each_of : ℕ → (ℕ → Bool) → Bool
each_of zero holds = true
each_of (suc n) holds = each_of n holds && holds n

each_of-elim :
    (n : ℕ) (holds : ℕ → Bool) → each_of n holds ≡ true → (k : ℕ) → k < n → holds k ≡ true
unfolding each_of
each_of-elim zero holds e k h = absurd (omega arith)
each_of-elim (suc n) holds e k h = elim (Bool-cases (k == n)) [
  | inl last ↦ rw ((==_iff k n).0 last) (ground (arith, e))
  | inr before ↦ each_of-elim n holds (ground (arith, e)) k (ground (arith, before))
]

abbrev bit_of : (byte k : ℕ) → ℕ
bit_of byte k = bit_and (byte / 2 ^ k) 1

abbrev byte_test : (byte k j : ℕ) → Bool
byte_test byte k j =
    bit_of (bit_or byte (2 ^ k)) j == (if k == j then 1 else bit_of byte j)
    && bit_of (bit_and byte (255 - 2 ^ k)) j == (if k == j then 0 else bit_of byte j)
    && ltb (bit_or byte (2 ^ k)) 256
    && ltb (bit_and byte (255 - 2 ^ k)) 256

byte_table : each_of 256 (λ byte. each_of 8 (λ k. each_of 8 (byte_test byte k))) ≡ true
unfolding each_of
byte_table = refl

record ByteLaws (byte k j : ℕ) : Type 0 where
  or_bit : bit_of (bit_or byte (2 ^ k)) j ≡ (if k == j then 1 else bit_of byte j)
  and_bit : bit_of (bit_and byte (255 - 2 ^ k)) j ≡ (if k == j then 0 else bit_of byte j)
  or_small : bit_or byte (2 ^ k) < 256
  and_small : bit_and byte (255 - 2 ^ k) < 256

byte_laws : (byte k j : ℕ) → byte < 256 → k < 8 → j < 8 → ByteLaws byte k j
byte_laws byte k j hb hk hj =
    let all = each_of-elim 256 _ byte_table byte hb in
    let row = each_of-elim 8 _ all k hk in
    let cell = each_of-elim 8 (byte_test byte k) row j hj in ground (arith, cell)

abbrev pub Bytes : (ℕ → ℕ) → Type 0
Bytes bits = (i : ℕ) → bits i < 256

-- A bit is set, and all others stay.
pub get_bit-set_bit :
    (bits : ℕ → ℕ) (b c : ℕ)
    → Bytes bits
    → get_bit (set_bit bits b) c ≡ (if b == c then 1 else get_bit bits c)
unfolding get_bit set_bit
get_bit-set_bit bits b c small = elim (Bool-cases (b / 8 == c / 8)) [
  | inl same ↦
      let e : b / 8 ≡ c / 8 = (==_iff _ _).0 same in
      let laws =
        byte_laws (bits (b / 8)) (b % 8) (c % 8) (small (b / 8)) (omega arith) (omega arith) in
      let test : (b % 8 == c % 8) ≡ (b == c) = ground arith in rw (same, laws.or_bit, test, e) refl
  | inr other ↦ let ne : (b == c) ≡ false = ground (arith, other) in rw (other, ne) refl
]

pub get_bit-clear_bit :
    (bits : ℕ → ℕ) (b c : ℕ)
    → Bytes bits
    → get_bit (clear_bit bits b) c ≡ (if b == c then 0 else get_bit bits c)
unfolding get_bit clear_bit
get_bit-clear_bit bits b c small = elim (Bool-cases (b / 8 == c / 8)) [
  | inl same ↦
      let e : b / 8 ≡ c / 8 = (==_iff _ _).0 same in
      let laws =
        byte_laws (bits (b / 8)) (b % 8) (c % 8) (small (b / 8)) (omega arith) (omega arith) in
      let test : (b % 8 == c % 8) ≡ (b == c) = ground arith in rw (same, laws.and_bit, test, e) refl
  | inr other ↦ let ne : (b == c) ≡ false = ground (arith, other) in rw (other, ne) refl
]

pub set_bit-Bytes : (bits : ℕ → ℕ) (b : ℕ) → Bytes bits → Bytes (set_bit bits b)
unfolding set_bit
set_bit-Bytes bits b small i =
    let laws = byte_laws (bits (b / 8)) (b % 8) 0 (small (b / 8)) (omega arith) (omega arith) in
    ground (arith, laws.or_small, small i)

pub clear_bit-Bytes : (bits : ℕ → ℕ) (b : ℕ) → Bytes bits → Bytes (clear_bit bits b)
unfolding clear_bit
clear_bit-Bytes bits b small i =
    let laws = byte_laws (bits (b / 8)) (b % 8) 0 (small (b / 8)) (omega arith) (omega arith) in
    ground (arith, laws.and_small, small i)

-- The nodes of the tree are numbered without a gap or a clash, level by level.
pub node_index_lem : (l i : ℕ) → l < 64 → i < 2 ^ l → node_index l i + 1 ≡ 2 ^ l + i
unfolding node_index
node_index_lem l i h lt =
    omega (arith, one-le-pow l 2, pow-suc 2 l, pow-le-pow_right {n = 2} (omega arith) {j = 64} h)

node_index_apart :
    (l i m j : ℕ) → l < m → m < 64 → i < 2 ^ l → j < 2 ^ m → node_index l i ≢ node_index m j
node_index_apart l i m j h hm hi hj e = omega (
  arith,
  node_index_lem l i (omega arith) hi,
  node_index_lem m j hm hj,
  pow-suc 2 l,
  pow-le-pow_right {n = 2} (omega arith) h,
)

pub node_index_inj :
    (l i m j : ℕ)
    → l < 64
    → m < 64
    → i < 2 ^ l
    → j < 2 ^ m
    → node_index l i ≡ node_index m j
    → (l ≡ m) × (i ≡ j)
node_index_inj l i m j hl hm hi hj e = elim (dec_lt l m) [
  | yes h ↦ absurd (node_index_apart l i m j h hm hi hj e)
  | no h ↦ elim (dec_lt m l) [
    | yes h' ↦ absurd (node_index_apart m j l i h' hl hj hi (sym e))
    | no h' ↦
        let same : l ≡ m = omega arith in
        (
          same,
          omega
              (arith, node_index_lem l i hl hi, node_index_lem m j hm hj, ap (λ t. 2 ^ t) same, e),
        )
  ]
]
