-- ===== src/Core/Boundary.antt =====
-- `Boundary` (crates/vault-core/src/boundary.rs): a validated boundary name. The private field of
-- the Rust type is the name itself, so a boundary is a text that `validate` has accepted.
use agent_memory_vault.Base.{ℕ, Bool, ◌&&◌, ◌||◌, ltb, leb, ◌==◌, if◌then◌else◌, length, every}
use agent_memory_vault.Core.Text.{Text, codes}
use agent_memory_vault.Core.Error.{Result, ok, err, ◌>>◌, invalid_input}

abbrev pub max_boundary_len : ℕ
max_boundary_len = 64

abbrev pub is_ascii_alphanumeric : ℕ → Bool
is_ascii_alphanumeric b =
    leb b'0' b && leb b b'9' || (leb b'A' b && leb b b'Z' || leb b'a' b && leb b b'z')

unfoldable pub is_name_byte : ℕ → Bool
is_name_byte b = is_ascii_alphanumeric b || (b == b'_' || b == b'-')

unfoldable pub validate : Text → Result (Unit {0})
validate name =
    if length name == 0
    then err (invalid_input (codes "boundary name must not be empty"))
    else if ltb max_boundary_len (length name)
    then err (invalid_input (codes "boundary name exceeds 64 bytes"))
    else if every is_name_byte name
    then ok tt
    else err
        (invalid_input (codes "boundary name must contain only ASCII letters, digits, '-', or '_'"))

-- `Boundary::new`, and the `FromStr` and `TryFrom` that call it.
unfoldable pub new : Text → Result Text
unfolding validate
new name = validate name >> ok name

unfoldable pub default_name : Text
default_name = codes "default"
