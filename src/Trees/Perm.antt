-- ===== src/Trees/Perm.antt =====
-- PermCheck of fileserver/trees/utils.go.
use qptools.Prelude.{ℕ, ◌+◌, ◌^◌, Bool, false, not, ◌&&◌, bit_and, ◌==◌, if◌then◌else◌}
use qptools.Qp.{Qp}

-- `permissions & (1 << n) != 0`
abbrev pub has_bit : (permissions n : ℕ) → Bool
has_bit permissions n = not (bit_and permissions (2 ^ n) == 0)

-- The offset of the permission bits of the owner, the group or the others.
abbrev pub bits_of : (owner group : Bool) → ℕ
bits_of owner group = if owner then 6 else if group then 3 else 0

-- PermCheck(owner, group, permissions, mode)
unfoldable pub perm_check : Qp → (owner group : Bool) (permissions mode : ℕ) → Bool
perm_check qp owner group permissions mode =
    if bit_and mode 3 == qp.oread
    then has_bit permissions (2 + bits_of owner group)
    else if bit_and mode 3 == qp.owrite
    then has_bit permissions (1 + bits_of owner group)
    else if bit_and mode 3 == qp.ordwr
    then has_bit permissions (2 + bits_of owner group)
      && has_bit permissions (1 + bits_of owner group)
    else if bit_and mode 3 == qp.oexec
    then has_bit permissions (bits_of owner group)
    else false
