-- ===== src/Dispatcher/Glob.antt =====
-- `GlobMatch` of src/server/dispatcher.cpp, and its use on the keys.
use redis_cpp.Base.{
  ℕ, zero, suc, ◌+◌, ◌*◌, Bool, true, false, ◌&&◌, ◌||◌, Option, none, some, List, [], ◌∷◌,
  if◌then◌else◌, ◌==◌, length, Bytes,
}

-- The inner loop of `GlobMatch`'s two pointers as states: what is left of the pattern and of the
-- text, and the pattern behind the last star with the text where that star's match ends.
unfoldable pub only_stars : Bytes → Bool
only_stars [] = true
only_stars (c ∷ p) = c == b'*' && only_stars p

-- `star_p + 1` and `star_t`, once there is a star.
abbrev pub Star : Type 0
Star = Option (Bytes × Bytes)

unfoldable pub glob_loop : ℕ → Bytes → Bytes → Star → Bool
glob_loop fuel p [] star = only_stars p
glob_loop zero p (d ∷ t) star = false
glob_loop (suc fuel) [] (d ∷ t) none = false
glob_loop (suc fuel) [] (d ∷ t) (some (q, [])) = false
glob_loop (suc fuel) [] (d ∷ t) (some (q, u ∷ us)) = glob_loop fuel q us (some (q, us))
glob_loop (suc fuel) (c ∷ p) (d ∷ t) star = elim (c == b'?' || c == d) [
  | true ↦ glob_loop fuel p t star
  | false ↦ elim (c == b'*') [
    | true ↦ glob_loop fuel p (d ∷ t) (some (p, d ∷ t))
    | false ↦ elim star [
      | none ↦ false
      | some (q, []) ↦ false
      | some (q, u ∷ us) ↦ glob_loop fuel q us (some (q, us))
    ]
  ]
]

unfoldable pub glob_match : Bytes → Bytes → Bool
glob_match pattern text =
    glob_loop ((length text + 1) * (length pattern + length text + 2)) pattern text none

unfoldable pub filter_keys : Bytes → List Bytes → List Bytes
filter_keys pattern [] = []
filter_keys pattern (key ∷ keys) =
    let rest = filter_keys pattern keys in if glob_match pattern key then key ∷ rest else rest
