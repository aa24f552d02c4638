-- ===== src/Base/Cmd.antt =====
-- Stateful C code: a command reads and changes a state, and `none` is the end of the program by a
-- failed assertion. A `Slot` is a part of the state: `self->_state`, or the memory.
use mathlib.Core.Path.{◌≡◌, refl, ap, ◌∙◌}
use mathlib.Core.Bool.{Bool, true, false}
use mathlib.Core.Option.{Option, none, some}

abbrev pub Cmd : Type 0 → Type 0 → Type 0
Cmd W A = W → Option (A × W)

module _ {W : Type 0} where
  abbrev pub pure : {A : Type 0} → A → Cmd W A
  pure a w = some (a, w)

  infixl 5 ◌>>=◌ ◌>>◌
  abbrev pub ◌>>=◌ : {A B : Type 0} → Cmd W A → (A → Cmd W B) → Cmd W B
  ◌>>=◌ m f w = elim (m w) [ none ↦ none | some (a, w') ↦ f a w' ]

  abbrev pub ◌>>◌ : {B : Type 0} → Cmd W (Unit {0}) → Cmd W B → Cmd W B
  ◌>>◌ m k = m >>= λ _. k

  -- `ALLO_ASSERT`
  abbrev pub assert : Bool → Cmd W (Unit {0})
  assert true w = some (tt, w)
  assert false w = none

  abbrev pub gets : {A : Type 0} → (W → A) → Cmd W A
  gets f w = some (f w, w)

  abbrev pub modify : (W → W) → Cmd W (Unit {0})
  modify f w = some (tt, f w)

-- A part of the state with its access functions.
pub record Slot (W S : Type 0) : Type 0 where
  pub get : W → S
  pub put : S → W → W
  pub get-put : (s : S) (w : W) → get (put s w) ≡ s
  pub put-get : (w : W) → put (get w) w ≡ w
  pub put-put : (s t : S) (w : W) → put s (put t w) ≡ put s w

-- A command on a part, run on the whole.
abbrev pub zoom : {W S A : Type 0} → Slot W S → Cmd S A → Cmd W A
zoom slot m w = elim (m (slot.get w)) [ none ↦ none | some (a, s) ↦ some (a, slot.put s w) ]

-- The run ends with a result for which `P` holds: no assertion fails.
abbrev pub Returns : {W A : Type 0} → (A → W → Type 0) → Option (A × W) → Type 0
Returns P none = ⊥
Returns P (some (a, w)) = P a w

-- What a run in two parts was.
pub >>=-eq-some :
    {W A B : Type 0} (m : Cmd W A) (k : A → Cmd W B) (w : W) {b : B} {w' : W}
    → (m >>= k) w ≡ some (b, w')
    → (a : A) × (w₁ : W) × (m w ≡ some (a, w₁)) × (k a w₁ ≡ some (b, w'))
>>=-eq-some {W} {A} {B} m k w {b} {w'} e = go (m w) refl e
  where
    go :
        (r : Option (A × W))
        → m w ≡ r
        → ◌≡◌ {A = Option (B × W)} (elim r [ none ↦ none | some (a, w₁) ↦ k a w₁ ]) (some (b, w'))
        → (a : A) × (w₁ : W) × (m w ≡ some (a, w₁)) × (k a w₁ ≡ some (b, w'))
    go none h e' = cc
    go (some (a, w₁)) h e' = (a, w₁, h, e')

-- Where the first part ends in `a`, the second one goes on.
pub bind_at :
    {W A B : Type 0} (m : Cmd W A) (k : A → Cmd W B) {w w' : W} {a : A}
    → m w ≡ some (a, w')
    → (m >>= k) w ≡ k a w'
bind_at m k e = rw (e, ◌>>=◌) refl

-- A run in two parts.
pub Returns-bind :
    {W A B : Type 0} (P : A → W → Type 0) (Q : B → W → Type 0) (m : Cmd W A) (k : A → Cmd W B)
    (w : W)
    → Returns P (m w)
    → ((a : A) (w' : W) → P a w' → Returns Q (k a w'))
    → Returns Q ((m >>= k) w)
Returns-bind {W} {A} {B} P Q m k w h next = go (m w) h
  where
    go :
        (r : Option (A × W))
        → Returns P r
        → Returns Q (elim r as (λ x. Option (B × W)) [ none ↦ none | some (a, w') ↦ k a w' ])
    go none h = h
    go (some (a, w')) h = next a w' h

pub Returns-map :
    {W A : Type 0} (P Q : A → W → Type 0) (r : Option (A × W))
    → Returns P r
    → ((a : A) (w : W) → P a w → Q a w)
    → Returns Q r
Returns-map P Q none h f = h
Returns-map P Q (some (a, w)) h f = f a w h

-- A part of a part.
module _ {W S T : Type 0} (outer : Slot W S) (inner : Slot S T) where
  abbrev put_within : T → W → W
  put_within t w = outer.put (inner.put t (outer.get w)) w

  pub within-get-put : (t : T) (w : W) → inner.get (outer.get (put_within t w)) ≡ t
  within-get-put t w = rw outer.get-put (inner.get-put t (outer.get w))

  pub within-put-get : (w : W) → put_within (inner.get (outer.get w)) w ≡ w
  within-put-get w = ap (λ s. outer.put s w) (inner.put-get (outer.get w)) ∙ outer.put-get w

  pub within-put-put : (t u : T) (w : W) → put_within t (put_within u w) ≡ put_within t w
  within-put-put t u w =
      let s = inner.put u (outer.get w) in
      outer.put-put (inner.put t (outer.get (outer.put s w))) s w
      ∙ ap (λ x. outer.put (inner.put t x) w) (outer.get-put s w)
      ∙ ap (λ x. outer.put x w) (inner.put-put t u (outer.get w))

  abbrev pub within : Slot W T
  within = record {
    get = λ w. inner.get (outer.get w);
    put = put_within;
    get-put = within-get-put;
    put-get = within-put-get;
    put-put = within-put-put;
  }
