-- ===== src/Streams.antt =====
-- What the client uses of std::istream and std::ostream: binary streams on a file's bytes.
use drop_file.Outcome.{done, Action}
use drop_file.Common.{ℕ, ◌+◌, Bool, [], ◌++◌, ltb, if◌then◌else◌, Bytes, length, take, drop}

-- `failed` is failbit, which a read that comes short sets.
pub record InputStream : Type 0 where
  pub content : Bytes
  pub position : ℕ
  pub failed : Bool

-- What lies ahead of the stream.
abbrev pub ahead : InputStream → Bytes
ahead s = drop s.position s.content

-- read and then gcount: the bytes that were read.
unfoldable pub read : ℕ → Action InputStream Bytes
read n s =
    let got = take n (ahead s) in
    if s.failed
    then done [] s
    else done got (record s { position = s.position + length got; failed = ltb (length got) n })

pub record OutputStream : Type 0 where
  pub content : Bytes
  pub position : ℕ

-- The bytes behind the position are overwritten.
unfoldable pub write : Bytes → Action OutputStream (Unit {0})
write d s = done tt (record {
  content = take s.position s.content ++ (d ++ drop (s.position + length d) s.content);
  position = s.position + length d;
})

abbrev pub tellp : Action OutputStream ℕ
tellp s = done s.position s

abbrev pub seekp : ℕ → Action OutputStream (Unit {0})
seekp p s = done tt (record s { position = p })

abbrev pub seekp_end : Action OutputStream (Unit {0})
seekp_end s = done tt (record s { position = length s.content })
