-- ===== src/Base/Strip.antt =====
-- Python's `strip`: a text that was stripped has nothing left to strip.
use Prim.Native.Char.{Char}
use groupware_migrator.Base.{
  String, ◌≡◌, refl, inl, inr, Bool, false, ◌&&◌, Bool-cases, nat_eq, string_eq,
}
use groupware_migrator.Base.Text.{lstrip, rstrip, strip, strip_chars, is_space, is_empty}

module _ (p : Char → Bool) where
  abbrev starts : String → Bool
  starts String.[] = false
  starts (String.◌∷◌ c s) = p c

  starts-lstrip : (s : String) → starts (lstrip p s) ≡ false
  unfolding lstrip
  starts-lstrip String.[] = refl
  starts-lstrip (String.◌∷◌ c s) = elim (Bool-cases (p c)) [
    | inl e ↦ rw e (starts-lstrip s)
    | inr e ↦ rw e e
  ]

  lstrip_fixed : (s : String) → starts s ≡ false → lstrip p s ≡ s
  unfolding lstrip
  lstrip_fixed String.[] h = refl
  lstrip_fixed (String.◌∷◌ c s) h = rw h refl

  starts-rstrip : (s : String) → starts s ≡ false → starts (rstrip p s) ≡ false
  unfolding rstrip
  starts-rstrip String.[] h = refl
  starts-rstrip (String.◌∷◌ c s) h = rw h h

  rstrip-rstrip : (s : String) → rstrip p (rstrip p s) ≡ rstrip p s
  unfolding rstrip
  rstrip-rstrip String.[] = refl
  rstrip-rstrip (String.◌∷◌ c s) = elim (Bool-cases (p c && is_empty (rstrip p s))) [
    | inl e ↦ rw e refl
    | inr e ↦ rw e (rw (rstrip-rstrip s) (rw e refl))
  ]

  strip_chars_idem : (s : String) → strip_chars p (strip_chars p s) ≡ strip_chars p s
  unfolding strip_chars
  strip_chars_idem s =
      rw (lstrip_fixed (rstrip p (lstrip p s)) (starts-rstrip (lstrip p s) (starts-lstrip s)))
        (rstrip-rstrip (lstrip p s))

pub strip_idem : (s : String) → strip (strip s) ≡ strip s
unfolding strip
strip_idem s = strip_chars_idem is_space s
