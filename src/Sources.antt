-- ===== src/Sources.antt =====
-- sources/base.py: the template value and the rule for canonical names.
pub mod Canonical
pub mod Filesystem
use dj_hyperview.Prelude.{
  ℕ, Bool, true, false, ◌||◌, List, [], ◌∷◌, ◌==◌, if◌then◌else◌, Text, codes, text_eq, starts_with,
  contains, split,
}
use dj_hyperview.Errors.{Result, ok, err, invalid_template_name}

pub record ResolvedTemplate : Type 0 where
  pub name : Text
  pub content : Text
  pub origin : Text
  pub source : Text
  pub revision : Text

-- A value of which the code asks whether it is a string.
pub data Object : Type 0 where
  text : Text → Object
  other : Object

abbrev pub slash : ℕ
slash = b'/'

abbrev pub backslash : ℕ
backslash = 0x5c

abbrev pub dot : Text
dot = codes "."

abbrev pub dot_dot : Text
dot_dot = codes ".."

-- `PureWindowsPath(name).drive` of a name that starts with no separator: a letter and a colon. The
-- names that start with a separator, which may stand for a network share, are refused by the tests
-- beside this one.
unfoldable pub has_drive : Text → Bool
has_drive (a ∷ c ∷ r) = c == b':'
has_drive _ = false

unfoldable pub any_in {ℓ} : {A : Type ℓ} → (A → Bool) → List A → Bool
any_in p [] = false
any_in p (a ∷ as_) = p a || any_in p as_

-- `part in {"", ".", ".."}`
unfoldable pub is_relative_part : Text → Bool
is_relative_part part = text_eq part [] || (text_eq part dot || text_eq part dot_dot)

-- `unsafe` stands for `category(character) in _UNSAFE_CATEGORIES`.
module _ (unsafe : ℕ → Bool) where
  unfoldable pub refused : Text → Bool
  unfolding has_drive any_in is_relative_part
  refused name =
      text_eq name []
      || (starts_with (slash ∷ []) name
          || (has_drive name
              || (contains backslash name
                  || (contains 0 name
                      || (any_in unsafe name || any_in is_relative_part (split slash name))))))

  unfoldable pub canonicalize_template_name : Object → Result Text
  canonicalize_template_name other = err invalid_template_name
  canonicalize_template_name (text name) =
      if refused name then err invalid_template_name else ok name
