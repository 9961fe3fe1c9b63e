-- ===== src/Tests/Address.antt =====
-- Addresses as text, and the round trip at one.
use librascal.Prelude.{ℕ, ◌≡◌, refl, true, some, List, [], ◌∷◌, arith}
use librascal.Address.{
  seg_loop, getseg, segment, octet_loop, has_dot, mask_loop, mask_bits, parse_v4, rascal_aton,
  rascal_ntoa,
}
use librascal.Address.RoundTrip.{aton-ntoa}

-- "10.0.0.0/12"
mask_test :
    parse_v4 (49 ∷ 48 ∷ 46 ∷ 48 ∷ 46 ∷ 48 ∷ 46 ∷ 48 ∷ 47 ∷ 49 ∷ 50 ∷ [])
    ≡ some (10 ∷ 0 ∷ 0 ∷ 0 ∷ [], 255 ∷ 240 ∷ 0 ∷ 0 ∷ [])
unfolding parse_v4 octet_loop segment getseg seg_loop has_dot mask_bits
mask_test = refl

-- "10.0.0.0/255.0"
short_mask_test :
    parse_v4 (49 ∷ 48 ∷ 46 ∷ 48 ∷ 46 ∷ 48 ∷ 46 ∷ 48 ∷ 47 ∷ 50 ∷ 53 ∷ 53 ∷ 46 ∷ 48 ∷ [])
    ≡ some (10 ∷ 0 ∷ 0 ∷ 0 ∷ [], 255 ∷ 0 ∷ 255 ∷ 255 ∷ [])
unfolding parse_v4 octet_loop segment getseg seg_loop has_dot mask_loop
short_mask_test = refl

-- "4294967297.0.0.0"
wrap_test :
    parse_v4 (52 ∷ 50 ∷ 57 ∷ 52 ∷ 57 ∷ 54 ∷ 55 ∷ 50 ∷ 57 ∷ 55 ∷ 46 ∷ 48 ∷ 46 ∷ 48 ∷ 46 ∷ 48 ∷ [])
    ≡ some (1 ∷ 0 ∷ 0 ∷ 0 ∷ [], 255 ∷ 255 ∷ 255 ∷ 255 ∷ [])
unfolding parse_v4 octet_loop segment getseg seg_loop
wrap_test = refl

aton-ntoa_example :
    (text : List ℕ) × (rascal_ntoa (192 ∷ 168 ∷ 0 ∷ 17 ∷ []) 16 ≡ some text)
    × (rascal_aton text ([], []) ≡ (
      true,
      record { octets = 192 ∷ 168 ∷ 0 ∷ 17 ∷ []; size = 4 },
      record { octets = 255 ∷ 255 ∷ 255 ∷ 255 ∷ []; size = 4 },
    ))
aton-ntoa_example =
    aton-ntoa (192 ∷ 168 ∷ 0 ∷ 17 ∷ []) 16 ([], []) refl
      (omega arith, (omega arith, (omega arith, (omega arith, tt)))) (omega arith)
