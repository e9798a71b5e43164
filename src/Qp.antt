-- ===== src/Qp.antt =====
-- What the source uses of github.com/kennylevinsen/qp, which is not part of the repository: its
-- constants and codecs are the fields of `Qp`, a parameter of the model, and its message structs
-- are records with the fields that the source reads or writes.
use qptools.Prelude.{ℕ, ◌+◌, ◌*◌, ◌≡◌, String, List, ◌∷◌, Option, length}
use qptools.Act.{Error, Result, value}

-- qp.Qid
pub record Qid : Type 0 where
  pub kind : ℕ
  pub version : ℕ
  pub path : ℕ

-- qp.Stat
pub record Stat : Type 0 where
  pub kind : ℕ
  pub dev : ℕ
  pub qid : Qid
  pub mode : ℕ
  pub atime : ℕ
  pub mtime : ℕ
  pub length : ℕ
  pub name : String
  pub uid : String
  pub gid : String
  pub muid : String

-- The requests that the server handles. `unsupported` is any message of another type.
pub data Request : Type 0 where
  version : (tag message_size : ℕ) (version : String) → Request
  auth : (tag auth_fid : ℕ) (username service : String) → Request
  attach : (tag fid auth_fid : ℕ) (username service : String) → Request
  flush : (tag old_tag : ℕ) → Request
  walk : (tag fid new_fid : ℕ) (names : List String) → Request
  open_file : (tag fid mode : ℕ) → Request
  create : (tag fid : ℕ) (name : String) (permissions mode : ℕ) → Request
  read : (tag fid offset count : ℕ) → Request
  write : (tag fid offset : ℕ) (bytes : List ℕ) → Request
  clunk : (tag fid : ℕ) → Request
  remove : (tag fid : ℕ) → Request
  stat : (tag fid : ℕ) → Request
  write_stat : (tag fid : ℕ) (stat : Stat) → Request
  unsupported : (tag : ℕ) → Request

-- m.GetTag()
abbrev pub get_tag : Request → ℕ
get_tag (version t _ _) = t
get_tag (auth t _ _ _) = t
get_tag (attach t _ _ _ _) = t
get_tag (flush t _) = t
get_tag (walk t _ _ _) = t
get_tag (open_file t _ _) = t
get_tag (create t _ _ _ _) = t
get_tag (read t _ _ _) = t
get_tag (write t _ _ _) = t
get_tag (clunk t _) = t
get_tag (remove t _) = t
get_tag (stat t _) = t
get_tag (write_stat t _ _) = t
get_tag (unsupported t) = t

-- The responses that the server sends; the tag is kept apart, in `Response`.
pub data Reply : Type 0 where
  r_error : String → Reply
  r_version : (message_size : ℕ) (version : String) → Reply
  r_auth : Qid → Reply
  r_attach : Qid → Reply
  r_flush : Reply
  r_walk : List Qid → Reply
  r_open : Qid → (iounit : ℕ) → Reply
  r_create : Qid → (iounit : ℕ) → Reply
  r_read : List ℕ → Reply
  r_write : ℕ → Reply
  r_clunk : Reply
  r_remove : Reply
  r_stat : Stat → Reply
  r_write_stat : Reply

pub record Response : Type 0 where
  pub tag : ℕ
  pub reply : Reply

pub record Qp : Type 0 where
  pub notag : ℕ
  pub nofid : ℕ
  pub oread : ℕ
  pub owrite : ℕ
  pub ordwr : ℕ
  pub oexec : ℕ
  pub otrunc : ℕ
  -- ^FileMode(0)
  pub mode_mask : ℕ
  pub dmdir : ℕ
  pub dmappend : ℕ
  pub qtdir : ℕ
  pub qtfile : ℕ
  pub qtauth : ℕ
  pub version : String
  pub unknown_version : String
  pub header_size : ℕ
  pub read_overhead : ℕ
  pub write_overhead : ℕ
  -- m.EncodedSize(), NineP2000.MessageType(m) and the error of m.Marshal
  pub encoded_size : Response → ℕ
  pub message_type : Response → Option Error
  pub marshal : Response → Option Error

-- What the open(5) and intro(5) pages of 9P2000 say of the constants.
pub record IsNineP (qp : Qp) : Type 0 where
  pub oread_val : qp.oread ≡ 0
  pub owrite_val : qp.owrite ≡ 1
  pub ordwr_val : qp.ordwr ≡ 2
  pub oexec_val : qp.oexec ≡ 3
  pub otrunc_val : qp.otrunc ≡ 16

-- The encoding of a qp.Stat: EncodedSize, Marshal and Unmarshal.
pub record StatCodec : Type 0 where
  pub size : Stat → ℕ
  pub marshal : Stat → Result (List ℕ)
  pub unmarshal : List ℕ → Result Stat

-- A stat that the codec carries: two bytes, low first, count the bytes that follow them, and the
-- whole decodes to the stat.
pub record Encodes (codec : StatCodec) (s : Stat) : Type 0 where
  pub lo : ℕ
  pub hi : ℕ
  pub body : List ℕ
  pub marshalled : codec.marshal s ≡ value (lo ∷ hi ∷ body)
  pub counted : length body ≡ lo + 256 * hi
  pub sized : codec.size s ≡ 2 + length body
  pub decoded : codec.unmarshal (lo ∷ hi ∷ body) ≡ value s
