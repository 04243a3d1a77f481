-- ===== src/Tests/Documents.antt =====
-- A small document, and the parameters of the validation that accept it.
use dj_hyperview.Prelude.{
  ℕ, ◌-◌, Bool, true, none, [], map, ◌==◌, if◌then◌else◌, length, take, drop, Text, codes,
  starts_with,
}
use dj_hyperview.Errors.{ok}
use dj_hyperview.Lexer.{Token}
use dj_hyperview.Validation.Declarations.{TokenType, text_token, block_token, other_token, Django}
use dj_hyperview.Validation.Guard.{ValidationSettings, Runtime}
use dj_hyperview.Validation.Limits.{node, leaf}
use dj_hyperview.Validation.Hxml.{Root, element, Schemas}

-- Tokens without the names of Django's tags: a block tag holds what stands between its delimiters.
unfoldable pub create_token : Token → TokenType × Text
unfolding starts_with
create_token t =
    let contents = take (length t.text - 4) (drop 2 t.text) in
    if t.in_tag
    then (if starts_with (codes "{%") t.text
        then (block_token contents, contents)
        else (other_token, contents))
    else (text_token, t.text)

abbrev pub django : Django
django = record { is_space = λ c. c == b' '; create_tokens = map create_token }

abbrev pub runtime : Runtime
runtime = record {
  codecs = record {
    classes = record { is_space = λ c. c == b' '; is_word = λ c. c == b'l' };
    aliases = λ name. none;
  };
  django = django;
}

abbrev pub config : ValidationSettings
config = record { max_bytes = 40; max_depth = 3; max_nodes = 4 }

abbrev pub page : Text
page = codes "<view/>"

abbrev pub root : Root
root = record { tree = node true 0 leaf; events = []; localname = codes "view" }

-- A parser that knows one document, and a registry whose identity is the state.
abbrev pub schemas : Schemas ℕ ℕ Bool
schemas = record {
  fromstring = λ bytes. element root;
  get_registry_snapshot = λ s. ((s, true), s);
  validate_schema_root = λ root registry. ok tt;
  same_identity = λ a b. a == b;
}
