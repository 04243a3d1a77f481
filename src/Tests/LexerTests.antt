-- ===== src/Tests/LexerTests.antt =====
-- Runs of the template lexer, and its theorems on a template with a closed and an unclosed tag.
use dj_hyperview.Prelude.{ℕ, ◌≡◌, List, [], ◌∷◌, All, Text, codes, ltb}
use dj_hyperview.Lexer.{scan, closed_spans, unclosed_cost_exceeds, tokenize}
use dj_hyperview.Lexer.Reference.{openers_from}
use dj_hyperview.Lexer.Scan.{scan-openers_from}
use dj_hyperview.Lexer.Cost.{exact_cost, unclosed_cost_exceeds-exact}
use dj_hyperview.Lexer.Tokens.{texts, tag_parts, IsAt, tokenize_lem}

-- Ten characters: text, a tag, text, and an opener that nothing closes.
abbrev sample : Text
sample = codes "a{{b}}c{%d"

abbrev spans : List (ℕ × ℕ)
spans = (1, 6) ∷ []

scan-openers_from_example : scan sample ≡ openers_from 0 0 sample
scan-openers_from_example = scan-openers_from sample

unclosed_cost_exceeds-exact_example : unclosed_cost_exceeds sample 2 ≡ ltb 2 (exact_cost sample)
unclosed_cost_exceeds-exact_example = unclosed_cost_exceeds-exact sample 2

tokenize_lem_example :
    (texts (tokenize sample) ≡ sample)
    × All (IsAt sample) (tokenize sample)
    × (tag_parts (tokenize sample) ≡ closed_spans (openers_from 0 0 sample))
tokenize_lem_example = tokenize_lem sample
