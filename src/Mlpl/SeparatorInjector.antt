-- ===== src/Mlpl/SeparatorInjector.antt =====
-- server/mlpl/src/SeparatorInjector.cc: a separator in front of every word but the first.
use hatohol.Base.{
  ℕ, ◌≡◌, ◌≢◌, refl, ap, Bool, true, false, List, [], ◌∷◌, ◌++◌, append-nil, append_assoc, arith,
  if◌then◌else◌, Bytes, All,
}
use hatohol.Mlpl.StringUtils.Split.{split, join, split-join, IsPiece}

pub record SeparatorInjector : Type 0 where
  pub first : Bool
  pub separator : Bytes

unfoldable pub init : Bytes → SeparatorInjector
init separator = record { first = true; separator = separator }

unfoldable pub clear : SeparatorInjector → SeparatorInjector
clear i = record i { first = true }

-- `operator()`: the injector and the text behind the call.
unfoldable pub inject : SeparatorInjector → Bytes → SeparatorInjector × Bytes
inject i str = if i.first then (record i { first = false }, str) else (i, str ++ i.separator)

-- The callers' pattern: for each word, call the injector on the text, then append the word.
pub inject_words : SeparatorInjector → Bytes → List Bytes → SeparatorInjector × Bytes
inject_words i str [] = (i, str)
inject_words i str (w ∷ ws) = let (i', str') = inject i str in inject_words i' (str' ++ w) ws

-- The words with the separator in front of each.
abbrev prefixed : Bytes → List Bytes → Bytes
prefixed separator [] = []
prefixed separator (w ∷ ws) = separator ++ (w ++ prefixed separator ws)

inject_words-prefixed :
    (i : SeparatorInjector) (str : Bytes) (ws : List Bytes)
    → i.first ≡ false
    → inject_words i str ws ≡ (i, str ++ prefixed i.separator ws)
unfolding inject_words inject
inject_words-prefixed i str [] e = ground (arith, append-nil str)
inject_words-prefixed i str (w ∷ ws) e = ground (
  arith,
  inject_words-prefixed i ((str ++ i.separator) ++ w) ws e,
  append_assoc str i.separator (w ++ prefixed i.separator ws),
  append_assoc (str ++ i.separator) w (prefixed i.separator ws),
)

prefixed-join :
    (sep : ℕ) (w : Bytes) (ws : List Bytes) → w ++ prefixed (sep ∷ []) ws ≡ join sep (w ∷ ws)
unfolding join
prefixed-join sep w [] = append-nil w
prefixed-join sep w (v ∷ ws) = ap (λ t. w ++ (sep ∷ t)) (prefixed-join sep v ws)

-- After a `clear`, the words that are appended through an injector whose separator is one char
-- stand with one separator between each two, none in front and none at the end. There is at least
-- one word.
inject_words-join :
    (i : SeparatorInjector) (sep : ℕ) (w : Bytes) (ws : List Bytes)
    → i.separator ≡ sep ∷ []
    → (inject_words (clear i) [] (w ∷ ws)).1 ≡ join sep (w ∷ ws)
unfolding inject_words inject clear
inject_words-join i sep w ws e =
    rw (inject_words-prefixed (record i { first = false }) w ws refl, e) (prefixed-join sep w ws)

-- Words that are appended, after a `clear`, through an injector whose separator is one char come
-- back from an unmerged split by it, if they hold neither it nor a NUL, the separator is not NUL
-- and there is at least one word.
pub split-inject_words :
    (i : SeparatorInjector) (sep : ℕ) (w : Bytes) (ws : List Bytes)
    → i.separator ≡ sep ∷ []
    → sep ≢ 0
    → All (IsPiece sep) (w ∷ ws)
    → split (inject_words (clear i) [] (w ∷ ws)).1 sep false ≡ w ∷ ws
split-inject_words i sep w ws e n h = rw (inject_words-join i sep w ws e) (split-join sep w ws n h)
