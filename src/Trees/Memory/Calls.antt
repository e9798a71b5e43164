-- ===== src/Trees/Memory/Calls.antt =====
-- What the store is like after calls of the methods of its objects, in any order.
use qptools.Prelude.{ℕ, ℤ, String, List, ◌==◌}
use text.Mathlib.Text.{◌==◌ as str_eq}
use qptools.Prelude.Maps.{nat_key, text_key}
use qptools.Qp.{Qp, StatCodec}
use qptools.Trees.Dir.{Dir}
use qptools.Trees.Dir as Dirs
use qptools.Trees.Memory.{Memory, memory_tree}

module _ (qp : Qp) (codec : StatCodec) where
  -- The calls of the interfaces File, Dir and ReadWriteAtCloser, with any arguments, at any time.
  pub data Calls (from : Memory) : Memory → Type 0 where
    begun : Calls from from
    named :
        {s : Memory} (now a : ℕ) → Calls from s → Calls from ((memory_tree qp codec now).name a s).1
    opened :
        {s : Memory} (now a : ℕ) (user : String) (mode : ℕ)
        → Calls from s
        → Calls from ((memory_tree qp codec now).open_file a user mode s).1
    identified :
        {s : Memory} (now a : ℕ) → Calls from s → Calls from ((memory_tree qp codec now).qid a s).1
    described :
        {s : Memory} (now a : ℕ) → Calls from s → Calls from ((memory_tree qp codec now).stat a s).1
    cut :
        {s : Memory} (now a : ℕ) (user : String) (n : ℕ)
        → Calls from s
        → Calls from ((memory_tree qp codec now).set_length a user n s).1
    renamed_self :
        {s : Memory} (now a : ℕ) (user name : String)
        → Calls from s
        → Calls from ((memory_tree qp codec now).set_name a user name s).1
    given :
        {s : Memory} (now a : ℕ) (user uid gid : String)
        → Calls from s
        → Calls from ((memory_tree qp codec now).set_owner a user uid gid s).1
    permitted :
        {s : Memory} (now a : ℕ) (user : String) (mode : ℕ)
        → Calls from s
        → Calls from ((memory_tree qp codec now).set_mode a user mode s).1
    told_apart :
        {s : Memory} (now a : ℕ)
        → Calls from s
        → Calls from ((memory_tree qp codec now).is_dir a s).1
    asked :
        {s : Memory} (now a : ℕ)
        → Calls from s
        → Calls from ((memory_tree qp codec now).can_remove a s).1
    reached :
        {s : Memory} (now a : ℕ) (user : String)
        → Calls from s
        → Calls from ((memory_tree qp codec now).arrived a user s).1
    walked :
        {s : Memory} (now a : ℕ) (user name : String)
        → Calls from s
        → Calls from ((memory_tree qp codec now).walk a user name s).1
    created :
        {s : Memory} (now a : ℕ) (user name : String) (perms : ℕ)
        → Calls from s
        → Calls from ((memory_tree qp codec now).create a user name perms s).1
    removed :
        {s : Memory} (now a : ℕ) (user name : String)
        → Calls from s
        → Calls from ((memory_tree qp codec now).remove a user name s).1
    renamed :
        {s : Memory} (now a : ℕ) (user old_name new_name : String)
        → Calls from s
        → Calls from ((memory_tree qp codec now).rename a user old_name new_name s).1
    read :
        {s : Memory} (now h count : ℕ) (offset : ℤ)
        → Calls from s
        → Calls from ((memory_tree qp codec now).read_at h count offset s).1
    written :
        {s : Memory} (now h : ℕ) (bytes : List ℕ) (offset : ℤ)
        → Calls from s
        → Calls from ((memory_tree qp codec now).write_at h bytes offset s).1
    shut :
        {s : Memory} (now h : ℕ)
        → Calls from s
        → Calls from ((memory_tree qp codec now).close h s).1
