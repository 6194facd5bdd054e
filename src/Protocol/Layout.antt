-- ===== src/Protocol/Layout.antt =====
-- The message format, described apart from the code: the fields of each operation, and how each
-- field stands in memory.
use network_optimization.Prelude.{ℕ, ◌+◌, ◌^◌, ◌<◌, ◌≡◌, some, List, [], ◌∷◌, ◌++◌, length, drop}
use network_optimization.Prelude.Strings.{c_string, le_bytes, le_value, IsText}
use network_optimization.Protocol.{
  Operation, shut_down_server, client_kv_set_eager, client_kv_set_rendezvous,
  server_kv_set_rendezvous, client_kv_get, server_kv_get_eager, server_kv_get_rendezvous,
  server_kv_get_key_not_found, server_in_progress, client_kv_get_rendezvous_fin,
  client_kv_set_rendezvous_fin, server_kv_set_successful, server_kv_get_successful,
}

-- A string, or an unsigned integer of some bytes.
pub data Field : Type 0 where
  text : List ℕ → Field
  word : ℕ → ℕ → Field

-- The messages by their content. Sizes and addresses are those that stand in the message.
pub data Message : Type 0 where
  set_eager : List ℕ → ℕ → List ℕ → Message
  set_rendezvous : List ℕ → ℕ → Message
  set_address : ℕ → ℕ → Message
  get get_fin set_fin : List ℕ → Message
  get_value : List ℕ → Message
  get_address : ℕ → ℕ → ℕ → Message
  shut_down not_found in_progress set_done get_done : Message

abbrev pub operation : Message → Operation
operation (set_eager key size value) = client_kv_set_eager
operation (set_rendezvous key size) = client_kv_set_rendezvous
operation (set_address va rkey) = server_kv_set_rendezvous
operation (get key) = client_kv_get
operation (get_fin key) = client_kv_get_rendezvous_fin
operation (set_fin key) = client_kv_set_rendezvous_fin
operation (get_value value) = server_kv_get_eager
operation (get_address size va rkey) = server_kv_get_rendezvous
operation shut_down = shut_down_server
operation not_found = server_kv_get_key_not_found
operation in_progress = server_in_progress
operation set_done = server_kv_set_successful
operation get_done = server_kv_get_successful

abbrev pub fields : Message → List Field
fields (set_eager key size value) = text key ∷ word 8 size ∷ text value ∷ []
fields (set_rendezvous key size) = text key ∷ word 8 size ∷ []
fields (set_address va rkey) = word 8 va ∷ word 4 rkey ∷ []
fields (get key) = text key ∷ []
fields (get_fin key) = text key ∷ []
fields (set_fin key) = text key ∷ []
fields (get_value value) = text value ∷ []
fields (get_address size va rkey) = word 8 size ∷ word 8 va ∷ word 4 rkey ∷ []
fields shut_down = []
fields not_found = []
fields in_progress = []
fields set_done = []
fields get_done = []

-- A field that can be written: no NUL in a string, and an integer that its bytes hold.
abbrev pub IsField : Field → Type 0
IsField (text s) = IsText s
IsField (word n x) = (0 < n) × (x < 256 ^ n)

abbrev pub AllFields : List Field → Type 0
AllFields [] = Unit {0}
AllFields (f ∷ fs) = IsField f × AllFields fs

abbrev pub encode : Field → List ℕ
encode (text s) = s ++ (0 ∷ [])
encode (word n x) = le_bytes n x

abbrev pub payload : List Field → List ℕ
payload [] = []
payload (f ∷ fs) = encode f ++ payload fs

-- Where each field stands, from the offset `off` on.
abbrev pub offsets : ℕ → List Field → List ℕ
offsets off [] = []
offsets off (f ∷ fs) = off ∷ offsets (off + length (encode f)) fs

-- What a reader finds at a pointer.
abbrev pub Reads : Field → List ℕ → Type 0
Reads (text s) p = c_string p ≡ some s
Reads (word n x) p = le_value n p ≡ some x

-- Every field is found at its offset of the buffer.
abbrev pub AllRead : List ℕ → List ℕ → List Field → Type 0
AllRead buf [] [] = Unit {0}
AllRead buf [] (f ∷ fs) = ⊥
AllRead buf (o ∷ os) [] = ⊥
AllRead buf (o ∷ os) (f ∷ fs) = Reads f (drop o buf) × AllRead buf os fs
