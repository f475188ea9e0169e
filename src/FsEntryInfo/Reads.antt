-- ===== src/FsEntryInfo/Reads.antt =====
-- Reads that must give all of their bytes.
use drop_file.Common.{
  ℕ, ◌+◌, ◌<◌, ◌≡◌, sym, ap, ◌∙◌, true, false, ◌++◌, arith, dec_le, Bytes, length, take, drop,
  take-append-drop, length-take, take_all, drop-drop, take_front, drop_front,
}
use drop_file.Streams.{InputStream, ahead, read}
use drop_file.FsEntryInfo.{fs_entry_info_exception, done, thrown, read_whole}

-- The stream behind the next `n` bytes.
abbrev pub skipped : ℕ → InputStream → InputStream
skipped n s = record s { position = s.position + n }

pub ahead-skipped :
    (d rest : Bytes) (n : ℕ) (s : InputStream)
    → length d ≡ n
    → ahead s ≡ d ++ rest
    → ahead (skipped n s) ≡ rest
ahead-skipped d rest n s len e =
    sym (drop-drop n s.position s.content) ∙ ap (drop n) e ∙ drop_front d rest n len

pub read_whole-front :
    (d rest message : Bytes) (n : ℕ) (s : InputStream)
    → s.failed ≡ false
    → length d ≡ n
    → ahead s ≡ d ++ rest
    → read_whole n message s ≡ done d (skipped n s)
unfolding read_whole read
read_whole-front d rest message n s good len e =
    rw (good, e, take_front d rest n len, len) (ground (arith, good))

pub read_whole-short :
    (message : Bytes) (n : ℕ) (s : InputStream)
    → s.failed ≡ false
    → length (ahead s) < n
    → (t : InputStream) × (read_whole n message s ≡ thrown (fs_entry_info_exception message) t)
unfolding read_whole read
read_whole-short message n s good short = (
  record s { position = s.position + length (ahead s); failed = true },
  rw (good, take_all n (ahead s) (omega arith)) (ground arith),
)

-- What a read that is done says of the stream.
pub record Took (n : ℕ) (d : Bytes) (s t : InputStream) : Type 0 where
  pub size : length d ≡ n
  pub front : ahead s ≡ d ++ ahead t
  pub moved : t.position ≡ s.position + n
  pub good : t.failed ≡ false

pub read_whole-Took :
    (message : Bytes) (n : ℕ) (d : Bytes) (s t : InputStream)
    → s.failed ≡ false
    → read_whole n message s ≡ done d t
    → Took n d s t
unfolding read_whole read
read_whole-Took message n d s t good h = elim (dec_le n (length (ahead s))) [
  | yes enough ↦
      let got = take n (ahead s) in
      let len : length got ≡ n = omega (arith, length-take n (ahead s)) in
      let split : ahead s ≡ got ++ drop n (ahead s) = sym (take-append-drop n (ahead s)) in
      let same : read_whole n message s ≡ done got (skipped n s) =
        read_whole-front got (drop n (ahead s)) message n s good len split in
      let is_got : got ≡ d = ground arith in
      let is_past : skipped n s ≡ t = ground arith in
      record {
        size = rw (← is_got) len;
        front =
            split
            ∙ ap (◌++◌ got) (sym (ahead-skipped got (drop n (ahead s)) n s len split))
            ∙ ap (λ x. x ++ ahead (skipped n s)) is_got
            ∙ ap (λ u. d ++ ahead u) is_past;
        moved = rw (← is_past);
        good = rw (← is_past) good;
      }
  | no short ↦ let (u, e) = read_whole-short message n s good (omega arith) in ground arith
]
