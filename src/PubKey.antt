-- ===== src/PubKey.antt =====
-- `CPubKey` (src/key.h): the bytes of a public key; an invalid one has none. Hash160 is a parameter.
use tetra.Prelude.{ℕ, Bool, not, ◌&&◌, ◌||◌, [], ◌∷◌, ◌==◌, if◌then◌else◌, length}
use tetra.Script.Machine.{Item}

unfoldable pub get_len : ℕ → ℕ
get_len header =
    if header == 2 || header == 3
    then 33
    else if header == 4 || header == 6 || header == 7
    then 65
    else 0

-- The constructor from a vector, which calls `Set`.
unfoldable pub pub_key : Item → Item
pub_key [] = []
pub_key (b ∷ bytes) =
    let len = get_len b in if not (len == 0) && len == length (b ∷ bytes) then b ∷ bytes else []

unfoldable pub is_valid : Item → Bool
is_valid key = not (length key == 0)

unfoldable pub get_id : (Item → Item) → Item → Item
get_id hash160 d = hash160 (pub_key d)
