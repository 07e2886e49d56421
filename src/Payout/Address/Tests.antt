-- ===== src/Payout/Address/Tests.antt =====
-- The checksum of the check string 123456789.
use shkeeper_io.Prelude.{ℕ, ◌≡◌, ◌<◌, refl, List, [], ◌∷◌}
use shkeeper_io.Payout.Address.{ton_crc16, crc_from, crc_rounds, crc_round, ton_crc16-bound}

abbrev digits : List ℕ
digits = 49 ∷ 50 ∷ 51 ∷ 52 ∷ 53 ∷ 54 ∷ 55 ∷ 56 ∷ 57 ∷ []

ton_crc16_of_digits : ton_crc16 digits ≡ 12739
unfolding ton_crc16 crc_from crc_rounds crc_round
ton_crc16_of_digits = refl

ton_crc16-bound_example : ton_crc16 digits < 65536
ton_crc16-bound_example = ton_crc16-bound digits
