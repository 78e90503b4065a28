-- ===== src/Bridge/Messages.antt =====
-- flattenMessages of bridge/main.go.
use relayent.Base.{ℕ, ◌-◌, Text, codes, ◌==◌, ◌&&◌, ltb, leb, List, [], ◌∷◌, ◌++◌, if◌then◌else◌}
use relayent.Api.{Message}

-- strings.ToUpper of a text of one byte. A byte that begins a longer character is not text by itself, and
-- becomes the replacement character U+FFFD.
unfoldable pub upper_byte : ℕ → Text
upper_byte c =
    if leb b'a' c && leb c b'z'
    then (c - 32) ∷ []
    else if ltb c 128
    then c ∷ []
    else 0xef ∷ 0xbf ∷ 0xbd ∷ []

abbrev pub upper_first : Text → Text
upper_first [] = []
upper_first (c ∷ role) = upper_byte c ++ role

abbrev pub role_of : Message → Text
role_of m = if m.role == [] then codes "user" else m.role

abbrev pub turn_text : Message → Text
turn_text m = upper_first (role_of m) ++ (codes ": " ++ m.content)

unfoldable pub more_messages : List Message → Text
more_messages [] = []
more_messages (m ∷ msgs) = codes "\n\n" ++ (turn_text m ++ more_messages msgs)

unfoldable pub flatten_messages : List Message → Text
unfolding upper_byte more_messages
flatten_messages [] = []
flatten_messages (m ∷ msgs) = turn_text m ++ more_messages msgs
