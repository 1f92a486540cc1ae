-- ===== src/Sar/Header.antt =====
-- The header bytes of src/nci_sar.c: the packet boundary flag, the message type, the connection.
use libncicore.Common.{ℕ, ◌<◌, ◌≡◌, refl, bit_and, bit_or, agree_on_bytes, bounded_on_bytes}
use libncicore.Sar.Defs.{
  nci_mt_mask, nci_pbf, nci_pbf_clear, nci_data_cid_mask, nci_control_gid_mask, nci_mt_cmd_pkt,
}

abbrev pub with_pbf : ℕ → ℕ
with_pbf h = bit_or h nci_pbf

abbrev pub without_pbf : ℕ → ℕ
without_pbf h = bit_and h nci_pbf_clear

module _ (h : ℕ) (b : h < 256) where
  pub mt-with_pbf : bit_and (with_pbf h) nci_mt_mask ≡ bit_and h nci_mt_mask
  mt-with_pbf =
      agree_on_bytes (λ y. bit_and (with_pbf y) nci_mt_mask) (λ y. bit_and y nci_mt_mask) h refl b

  pub mt-without_pbf : bit_and (without_pbf h) nci_mt_mask ≡ bit_and h nci_mt_mask
  mt-without_pbf =
      agree_on_bytes (λ y. bit_and (without_pbf y) nci_mt_mask) (λ y. bit_and y nci_mt_mask) h refl
        b

  pub cid-with_pbf : bit_and (with_pbf h) nci_data_cid_mask ≡ bit_and h nci_data_cid_mask
  cid-with_pbf =
      agree_on_bytes (λ y. bit_and (with_pbf y) nci_data_cid_mask)
        (λ y. bit_and y nci_data_cid_mask) h refl b

  pub gid-with_pbf : bit_and (with_pbf h) nci_control_gid_mask ≡ bit_and h nci_control_gid_mask
  gid-with_pbf =
      agree_on_bytes (λ y. bit_and (with_pbf y) nci_control_gid_mask)
        (λ y. bit_and y nci_control_gid_mask) h refl b

  pub cid-without_pbf : bit_and (without_pbf h) nci_data_cid_mask ≡ bit_and h nci_data_cid_mask
  cid-without_pbf =
      agree_on_bytes (λ y. bit_and (without_pbf y) nci_data_cid_mask)
        (λ y. bit_and y nci_data_cid_mask) h refl b

  pub pbf-with_pbf : bit_and (with_pbf h) nci_pbf ≡ nci_pbf
  pbf-with_pbf = agree_on_bytes (λ y. bit_and (with_pbf y) nci_pbf) (λ _. nci_pbf) h refl b

  pub pbf-without_pbf : bit_and (without_pbf h) nci_pbf ≡ 0
  pbf-without_pbf = agree_on_bytes (λ y. bit_and (without_pbf y) nci_pbf) (λ _. 0) h refl b

  pub with_pbf_byte : with_pbf h < 256
  with_pbf_byte = bounded_on_bytes with_pbf 256 h refl b

  pub without_pbf_byte : without_pbf h < 256
  without_pbf_byte = bounded_on_bytes without_pbf 256 h refl b

  -- A data packet's first byte holds the connection and the message type 0.
  pub mt_of_cid : bit_and (bit_and h nci_data_cid_mask) nci_mt_mask ≡ 0
  mt_of_cid =
      agree_on_bytes (λ y. bit_and (bit_and y nci_data_cid_mask) nci_mt_mask) (λ _. 0) h refl b

  pub cid_of_cid :
      bit_and (bit_and h nci_data_cid_mask) nci_data_cid_mask ≡ bit_and h nci_data_cid_mask
  cid_of_cid =
      agree_on_bytes (λ y. bit_and (bit_and y nci_data_cid_mask) nci_data_cid_mask)
        (λ y. bit_and y nci_data_cid_mask) h refl b

  pub cid_small : bit_and h nci_data_cid_mask < 16
  cid_small = bounded_on_bytes (λ y. bit_and y nci_data_cid_mask) 16 h refl b

  pub mt_of_command :
      bit_and (bit_or nci_mt_cmd_pkt (bit_and h nci_control_gid_mask)) nci_mt_mask ≡ nci_mt_cmd_pkt
  mt_of_command =
      agree_on_bytes
        (λ y. bit_and (bit_or nci_mt_cmd_pkt (bit_and y nci_control_gid_mask)) nci_mt_mask)
        (λ _. nci_mt_cmd_pkt) h refl b
