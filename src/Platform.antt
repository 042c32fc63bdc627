-- ===== src/Platform.antt =====
-- What the SDK calls and does not implement: Go's encoders, its clock format, its cryptography and
-- golang.org/x/crypto/hkdf. Bytes are lists of numbers, texts are native.
use banyan_hub_sdk.Base.{nat_eq, ℕ, String, Bool, true, false, ◌&&◌, List, [], ◌∷◌}
use banyan_hub_sdk.Errors.{Result}
use banyan_hub_sdk.Errors.Api.{Bytes}
use banyan_hub_sdk.Types.{Lease, PersistedState, Envelope}

pub record Platform : Type 0 where
  -- `[]byte(s)`
  pub bytes_of : String → Bytes
  -- `bytes.TrimSpace`
  pub trim_bytes : Bytes → Bytes
  -- `base64.StdEncoding`
  pub encode_base64 : Bytes → String
  pub decode_base64 : String → Result Bytes
  -- `hex.EncodeToString`
  pub encode_hex : Bytes → String
  -- `time.Parse(time.RFC3339, s)`, as nanoseconds since the Unix epoch
  pub parse_time : String → Result ℕ
  -- `t.UTC().Format(time.RFC3339)`
  pub format_time : ℕ → String
  -- `sha256.Sum256`, HMAC-SHA256 with a key, and 32 bytes read from `hkdf.New(sha256.New, …)` with
  -- a secret, a salt and an info
  pub sha256 : Bytes → Bytes
  pub hmac : Bytes → Bytes → Bytes
  pub hkdf : Bytes → Bytes → Bytes → Result Bytes
  -- `ed25519.Verify(key, message, signature)`
  pub ed25519_verify : Bytes → Bytes → Bytes → Bool
  -- `json.Valid`
  pub json_valid : Bytes → Bool
  -- `json.Unmarshal` into `map[string]json.RawMessage`, the members in any order, and into
  -- `[]json.RawMessage`
  pub unmarshal_object : Bytes → Result (List (String × Bytes))
  pub unmarshal_array : Bytes → Result (List Bytes)
  -- `json.Compact`, and `json.Marshal` of a text
  pub json_compact : Bytes → Result Bytes
  pub marshal_text : String → Bytes
  -- `json.Marshal` and `json.Unmarshal` at the SDK's types
  pub marshal_lease : Lease → Result Bytes
  pub unmarshal_lease : Bytes → Result Lease
  pub marshal_state : PersistedState → Result Bytes
  pub unmarshal_state : Bytes → Result PersistedState
  pub marshal_envelope : Envelope → Result Bytes
  pub unmarshal_envelope : Bytes → Result Envelope

-- `hmac.Equal` and `bytes.Equal`
unfoldable pub bytes_equal : Bytes → Bytes → Bool
bytes_equal [] [] = true
bytes_equal [] (b ∷ bs) = false
bytes_equal (a ∷ xs) [] = false
bytes_equal (a ∷ xs) (b ∷ bs) = nat_eq a b && bytes_equal xs bs
