-- ===== src/HostClient/Urls.antt =====
-- slimx_agent/host_client.py, `_segment`: one URL path segment for an identity, with the standard
-- library's `quote(text, safe="")`. A native text has no lone surrogates, which `quote` would refuse.
use slimx_agent.Prelude.{
  ℕ, zero, suc, ◌+◌, ◌/◌, ◌%◌, String, ◌<>◌, Bool, ◌&&◌, ◌||◌, List, [], ◌∷◌, ◌++◌, if◌then◌else◌,
  leb, ltb, contains, repr,
}
use Prim.Native.Char.{Char, code}
use slimx_agent.Outcomes.{Result, ok, raised}
use slimx_agent.HostClient.Errors.{new_protocol_error}

abbrev between : ℕ → ℕ → ℕ → Bool
between lo hi c = leb lo c && leb c hi

-- Letters, digits, and `_`, `.`, `-`, `~`.
unfoldable pub is_unreserved : ℕ → Bool
is_unreserved c =
    between 48 57 c
    || between 65 90 c
    || between 97 122 c
    || between 95 95 c
    || between 45 46 c
    || between 126 126 c

-- The bytes of a code point in UTF-8.
unfoldable pub utf8_char : ℕ → List ℕ
utf8_char c =
    if ltb c 128
    then c ∷ []
    else if ltb c 2048
    then (192 + c / 64) ∷ (128 + c % 64) ∷ []
    else if ltb c 65536
    then (224 + c / 4096) ∷ (128 + c / 64 % 64) ∷ (128 + c % 64) ∷ []
    else (240 + c / 262144) ∷ (128 + c / 4096 % 64) ∷ (128 + c / 64 % 64) ∷ (128 + c % 64) ∷ []

unfoldable pub utf8 : String → List ℕ
utf8 String.[] = []
utf8 (String.◌∷◌ c s) = utf8_char (code c) ++ utf8 s

unfoldable pub hex_digit : ℕ → Char
hex_digit zero = "0"
hex_digit (suc zero) = "1"
hex_digit (suc (suc zero)) = "2"
hex_digit (suc (suc (suc zero))) = "3"
hex_digit (suc (suc (suc (suc zero)))) = "4"
hex_digit (suc (suc (suc (suc (suc zero))))) = "5"
hex_digit (suc (suc (suc (suc (suc (suc zero)))))) = "6"
hex_digit (suc (suc (suc (suc (suc (suc (suc zero))))))) = "7"
hex_digit (suc (suc (suc (suc (suc (suc (suc (suc zero)))))))) = "8"
hex_digit (suc (suc (suc (suc (suc (suc (suc (suc (suc zero))))))))) = "9"
hex_digit (suc (suc (suc (suc (suc (suc (suc (suc (suc (suc zero)))))))))) = "A"
hex_digit (suc (suc (suc (suc (suc (suc (suc (suc (suc (suc (suc zero))))))))))) = "B"
hex_digit (suc (suc (suc (suc (suc (suc (suc (suc (suc (suc (suc (suc zero)))))))))))) = "C"
hex_digit (suc (suc (suc (suc (suc (suc (suc (suc (suc (suc (suc (suc (suc zero))))))))))))) = "D"
hex_digit (suc (suc (suc (suc (suc (suc (suc (suc (suc (suc (suc (suc (suc (suc zero)))))))))))))) =
    "E"
hex_digit _ = "F"

abbrev pub percent : Char
percent = "%"

-- Each byte as `%` and two digits, before a rest.
unfoldable pub escape_bytes : List ℕ → String → String
escape_bytes [] rest = rest
escape_bytes (b ∷ bytes) rest =
    String.◌∷◌ percent
      (String.◌∷◌ (hex_digit (b / 16)) (String.◌∷◌ (hex_digit (b % 16)) (escape_bytes bytes rest)))

unfoldable pub quote : String → String
quote String.[] = ""
quote (String.◌∷◌ c s) =
    let rest = quote s in
    if is_unreserved (code c) then String.◌∷◌ c rest else escape_bytes (utf8_char (code c)) rest

unfoldable pub segment : String → Result String
segment text =
    if contains ("" ∷ "." ∷ ".." ∷ []) text
    then raised
        (new_protocol_error ("host identity " <> (repr text <> " cannot be a URL path segment")))
    else ok (quote text)
