-- ===== src/Message.antt =====
-- pubsub.go: `Message`, with the fields of `pb.Message` that it embeds. Peers, topics and ids are
-- numbers; 0 stands for the empty string. The data, the sequence number, the signature and the key
-- are lists of bytes; a field that is nil is `none`.
use go_libp2p_pubsub.Prelude.{ℕ, Bool, List, [], Option, get_or_else}

pub record Message : Type 0 where
  pub from : Option ℕ
  pub data_bytes : List ℕ
  pub seqno : Option (List ℕ)
  pub topic : ℕ
  pub signature : Option (List ℕ)
  pub key : Option (List ℕ)
  pub id : ℕ
  pub received_from : ℕ
  pub is_local : Bool

-- `GetFrom` and `GetSeqno`.
abbrev pub get_from : Message → ℕ
get_from msg = get_or_else msg.from 0

abbrev pub get_seqno : Message → List ℕ
get_seqno msg = get_or_else msg.seqno []
