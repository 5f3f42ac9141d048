-- ===== src/Raft/Tests/Files.antt =====
-- The theorems about envelopes, at a format in which a byte stands for a number.
use sandstore.Base.{ℕ, ◌≡◌, refl, false, Option, none, some, [], ◌∷◌, nat_eq}
use sandstore.Raft.Types.{Bytes, ok, err, wal_corrupt}
use sandstore.Raft.AtomicFile.{Syscalls, all_succeed, write_file_atomically}
use sandstore.Raft.Envelope.{
  Codec, Envelope, Format, seal, unseal, Decodes, unseal-seal, write_file_atomically-Decodes,
}
use sandstore.Raft.Tests.{sum, no_file}

abbrev unmarshal_number : Bytes → Option ℕ
unmarshal_number (n ∷ []) = some n
unmarshal_number _ = none

abbrev number_codec : Codec ℕ
number_codec = record {
  marshal = λ n. n ∷ [];
  unmarshal = unmarshal_number;
  unmarshal-marshal = λ n. refl;
}

abbrev unmarshal_envelope : Bytes → Option Envelope
unmarshal_envelope [] = none
unmarshal_envelope (crc ∷ body) = some (record { crc = crc; body = body })

abbrev envelope_codec : Codec Envelope
envelope_codec = record {
  marshal = λ e. e.crc ∷ e.body;
  unmarshal = unmarshal_envelope;
  unmarshal-marshal = λ e. refl;
}

abbrev sample : Format ℕ
sample = record { checksum = sum; inner = number_codec; outer = envelope_codec }

read_seven : unseal sample wal_corrupt (7 ∷ 7 ∷ []) ≡ ok 7
unfolding unseal
read_seven = refl

-- A flipped byte is noticed.
read_flipped : unseal sample wal_corrupt (7 ∷ 6 ∷ []) ≡ err wal_corrupt
unfolding unseal
read_flipped = refl

unseal-seal_example : unseal sample wal_corrupt (seal sample 9) ≡ ok 9
unseal-seal_example = unseal-seal sample wal_corrupt 9

-- The sync of the directory fails.
abbrev no_dir_sync : Syscalls
no_dir_sync = record all_succeed { sync_dir = false }

write_file_atomically-Decodes_example :
    ((write_file_atomically {C = Bytes} no_dir_sync (some (7 ∷ [])) (seal sample 9) no_file).0
      ≡ (write_file_atomically {C = ℕ} no_dir_sync none 9 no_file).0)
    × Decodes sample wal_corrupt
        (write_file_atomically {C = Bytes} no_dir_sync (some (7 ∷ [])) (seal sample 9) no_file).1
        (write_file_atomically {C = ℕ} no_dir_sync none 9 no_file).1
write_file_atomically-Decodes_example =
    write_file_atomically-Decodes sample wal_corrupt no_dir_sync (some (7 ∷ [])) 9 no_file no_file
      refl
