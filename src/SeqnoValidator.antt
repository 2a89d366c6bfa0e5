-- ===== src/SeqnoValidator.antt =====
-- validation_builtin.go: `BasicSeqnoValidator`, which ignores replayed messages by a nonce of each
-- peer. `validate` is two steps, since other calls may run between its two locks: the check under the
-- read lock, and the commit under the exclusive one.
pub mod Replay
pub mod Tests
use go_libp2p_pubsub.Prelude.{
  ℕ, zero, suc, ◌+◌, ◌*◌, ◌/◌, ◌%◌, ◌≡◌, ◌≢◌, Bool, List, [], ◌∷◌, Option, none, some, length, take,
  ltb, leb, if◌then◌else◌,
}
use go_libp2p_pubsub.Message.{Message, get_from, get_seqno}
use go_libp2p_pubsub.Validation.{ValidationResult, accept, ignore}

-- The interface `PeerMetadataStore`: `get` fails by `none` and gives no bytes for a peer without
-- metadata; a `put` that fails stores nothing.
pub record PeerMetadataStore : Type 1 where
  pub Store : Type 0
  pub get : Store → ℕ → Option (List ℕ)
  pub put : Store → ℕ → List ℕ → Option Store
  pub get-put :
      (m m' : Store) (p : ℕ) (bytes : List ℕ) → put m p bytes ≡ some m' → get m' p ≡ some bytes
  pub get-put_other :
      (m m' : Store) (p q : ℕ) (bytes : List ℕ)
      → put m p bytes ≡ some m'
      → p ≢ q
      → get m' q ≡ get m q

unfoldable pub decode : ℕ → List ℕ → ℕ
decode n [] = n
decode n (b ∷ bytes) = decode (n * 256 + b) bytes

unfoldable pub encode : ℕ → ℕ → List ℕ → List ℕ
encode zero n bytes = bytes
encode (suc k) n bytes = encode k (n / 256) (n % 256 ∷ bytes)

-- `binary.BigEndian.Uint64`, which panics on fewer than 8 bytes, and `PutUint64`.
unfoldable pub uint64 : List ℕ → Option ℕ
unfolding decode
uint64 bytes = if ltb (length bytes) 8 then none else some (decode 0 (take 8 bytes))

unfoldable pub put_uint64 : ℕ → List ℕ
unfolding encode
put_uint64 n = encode 8 n []

-- `if len(bytes) > 0 { nonce = ... }`.
unfoldable pub read_nonce : ℕ → List ℕ → Option ℕ
unfolding uint64
read_nonce nonce [] = some nonce
read_nonce nonce (b ∷ bytes) = uint64 (b ∷ bytes)

pub data Checked : Type 0 where
  ignored panicked : Checked
  passed : ℕ → ℕ → Checked

module _ (v : PeerMetadataStore) where
  open v use {Store, get, put}

  unfoldable pub first_check : Store → Message → Checked
  unfolding read_nonce
  first_check meta m = elim (get meta (get_from m)) [
    | none ↦ ignored
    | some nonce_bytes ↦ elim (read_nonce 0 nonce_bytes) [
      | none ↦ panicked
      | some nonce ↦ elim (read_nonce 0 (get_seqno m)) [
        | none ↦ panicked
        | some seqno ↦ if leb seqno nonce then ignored else passed nonce seqno
      ]
    ]
  ]

  -- `none` is a panic.
  unfoldable pub commit : Store → ℕ → ℕ → ℕ → Option (ValidationResult × Store)
  unfolding read_nonce put_uint64
  commit meta p nonce seqno = elim (get meta p) [
    | none ↦ some (ignore, meta)
    | some nonce_bytes ↦ elim (read_nonce nonce nonce_bytes) [
      | none ↦ none
      | some nonce' ↦
          if leb seqno nonce' then some (ignore, meta) else elim (put meta p (put_uint64 seqno)) [
            | none ↦ some (accept, meta)
            | some meta' ↦ some (accept, meta')
          ]
    ]
  ]
