-- ===== src/Tests/Archive.antt =====
-- The properties of FSEntryInfo on a small entry.
use drop_file.FsEntryInfo.Untrusted.{read_from_stream-Entered, Entered}
use drop_file.Outcome.{done}
use drop_file.Socket.Header.{le_bytes}
use drop_file.Streams.{OutputStream, InputStream}
use drop_file.FsEntryInfo.Format.{read_from_stream-entry_header, IsEntry, entry_header}
use drop_file.FsEntryInfo.{read_from_stream, FsEntryInfo}
use drop_file.Common.{◌≡◌, refl, false, [], ◌∷◌, ◌++◌, arith, Bytes, length, drop}
use drop_file.FsEntryInfo.Reads.{skipped}
use drop_file.Tests.Wire.{wire_format}

abbrev small : FsEntryInfo
small = record { is_directory = 0; relative_path = 97 ∷ 98 ∷ []; compressed_length = 3 }

abbrev packed : Bytes
packed = 7 ∷ 8 ∷ 9 ∷ []

abbrev archive : InputStream
archive = record { content = entry_header small ++ packed; position = 0; failed = false }

abbrev archive_behind : InputStream
archive_behind = skipped (length (entry_header small)) archive

small-IsEntry : IsEntry small
small-IsEntry = record { byte = omega arith; path_fits = omega arith; length_fits = omega arith }

small-reads : read_from_stream wire_format 22 archive ≡ done small archive_behind
unfolding entry_header le_bytes drop
small-reads =
    read_from_stream-entry_header wire_format small packed 22 archive small-IsEntry refl refl
      (omega arith) (omega arith)

read_from_stream-Entered_example : Entered 22 small archive archive_behind
unfolding entry_header le_bytes drop
read_from_stream-Entered_example =
    read_from_stream-Entered wire_format small 22 archive archive_behind refl
      (
        omega arith,
        (
          omega arith,
          (
            omega arith,
            (
              omega arith,
              (
                omega arith,
                (
                  omega arith,
                  (
                    omega arith,
                    (
                      omega arith,
                      (
                        omega arith,
                        (
                          omega arith,
                          (
                            omega arith,
                            (
                              omega arith,
                              (
                                omega arith,
                                (
                                  omega arith,
                                  (
                                    omega arith,
                                    (
                                      omega arith,
                                      (
                                        omega arith,
                                        (
                                          omega arith,
                                          (
                                            omega arith,
                                            (omega arith, (omega arith, (omega arith, tt))),
                                          ),
                                        ),
                                      ),
                                    ),
                                  ),
                                ),
                              ),
                            ),
                          ),
                        ),
                      ),
                    ),
                  ),
                ),
              ),
            ),
          ),
        ),
      )
      small-reads

abbrev empty_file : OutputStream
empty_file = record { content = []; position = 0 }
