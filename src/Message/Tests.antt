-- ===== src/Message/Tests.antt =====
-- The theorems about messages at concrete inputs, and concrete runs.
use bee_p.Common.{
  ℕ, ◌+◌, ◌≤◌, ◌≡◌, ◌↔◌, refl, true, some, List, [], ◌∷◌, ◌++◌, length, replicate, take, drop, ok,
  arith,
}
use bee_p.Common.Bytes.{split_at, from_be_bytes, be_value}
use bee_p.Message.{contains}
use bee_p.Message.Header
use bee_p.Message.Header.{Header, header_size, header_bytes}
use bee_p.Message.Heartbeat
use bee_p.Message.Heartbeat.{Heartbeat, heartbeat, heartbeat-IsLawful}
use bee_p.Message.Tlv.{tlv_from_bytes, tlv_into_bytes}
use bee_p.Message.Tlv.RoundTrip.{tlv_roundtrip, tlv_from_bytes_accepts, tlv_reencode}
use bee_p.Message.Compression.{compress_transaction_bytes, uncompress_transaction_bytes}
use bee_p.Message.Compression.RoundTrip.{compress_roundtrip}

abbrev beat : Heartbeat
beat = record { solid_milestone_index = 0x3dc297b4; snapshot_milestone_index = 0x01181f9b }

beat-IsValid : Heartbeat.IsValid beat
beat-IsValid = omega arith

abbrev beat_header : Header
beat_header = record { message_type = 6; message_length = 8 }

abbrev beat_bytes : List ℕ
beat_bytes = 0x3d ∷ 0xc2 ∷ 0x97 ∷ 0xb4 ∷ 0x01 ∷ 0x18 ∷ 0x1f ∷ 0x9b ∷ []

beat_read : tlv_from_bytes heartbeat beat_header beat_bytes ≡ some (ok beat)
unfolding tlv_from_bytes Heartbeat.from_bytes split_at from_be_bytes be_value
beat_read = refl

tlv_roundtrip_example :
    (bytes : List ℕ) × (h : Header) × (tlv_into_bytes heartbeat beat ≡ some bytes)
    × (Header.from_bytes (take header_size bytes) ≡ some h)
    × (tlv_from_bytes heartbeat h (drop header_size bytes) ≡ some (ok beat))
    × (length bytes ≡ header_size + heartbeat.size beat)
unfolding Heartbeat.size
tlv_roundtrip_example =
    tlv_roundtrip heartbeat Heartbeat.IsValid Heartbeat.layout heartbeat-IsLawful beat beat-IsValid
      refl

tlv_from_bytes_accepts_example :
    ((x : Heartbeat) × (tlv_from_bytes heartbeat beat_header beat_bytes ≡ some (ok x)))
    ↔ ((◌≡◌ {A = ℕ} 6 6) × (◌≡◌ {A = ℕ} 8 8) × (contains heartbeat.size_range 8 ≡ true))
tlv_from_bytes_accepts_example =
    tlv_from_bytes_accepts heartbeat Heartbeat.IsValid Heartbeat.layout heartbeat-IsLawful
      beat_header beat_bytes (omega arith)

tlv_reencode_example :
    Heartbeat.IsValid beat
    × (tlv_into_bytes heartbeat beat ≡ some (header_bytes beat_header ++ beat_bytes))
tlv_reencode_example =
    tlv_reencode heartbeat Heartbeat.IsValid Heartbeat.layout heartbeat-IsLawful beat_header
      beat_bytes beat (omega arith) beat_read

-- A transaction whose payload ends in zeros.
abbrev transaction : List ℕ
transaction = replicate 40 7 ++ replicate 1564 0

compress_roundtrip_example :
    (compressed : List ℕ) × (compress_transaction_bytes transaction ≡ some compressed)
    × (uncompress_transaction_bytes compressed ≡ some transaction)
    × (292 ≤ length compressed)
    × (length compressed ≤ 1604)
compress_roundtrip_example = compress_roundtrip transaction refl
