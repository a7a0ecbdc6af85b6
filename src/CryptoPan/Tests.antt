-- ===== src/CryptoPan/Tests.antt =====
-- A run of the anonymization, and addresses at which the theorem applies.
use rustflow.Prelude.{◌≡◌, refl, arith, ◌↔◌, replicate, ◌++◌}
use rustflow.Wire.Read.{Bytes, number_from}
use rustflow.Wire.Write.{number_bytes}
use rustflow.FlowCache.{IpAddr}
use rustflow.CryptoPan.{Aes128, new, anonymize, anonymize_bits, anonymize_v4, flip_of, flips_from}
use rustflow.CryptoPan.Addresses.{SharePrefix, anonymize-SharePrefix}

-- A cipher that leaves blocks as they are.
identity : Aes128
identity = record { encrypt_block = λ key block. block; encrypt_block_lem = λ key block h. h }

abbrev key : Bytes
key = replicate 16 1 ++ replicate 16 200

-- 10.1.2.3 and 10.1.9.9.
anonymize-SharePrefix_example :
    SharePrefix 16 (IpAddr.v4 0x0a010203) (IpAddr.v4 0x0a010909)
    ↔ SharePrefix 16
        (anonymize identity (new identity key) (IpAddr.v4 0x0a010203))
        (anonymize identity (new identity key) (IpAddr.v4 0x0a010909))
anonymize-SharePrefix_example =
    anonymize-SharePrefix identity (new identity key) 16 (IpAddr.v4 0x0a010203)
      (IpAddr.v4 0x0a010909) (omega arith) (omega arith) (omega arith)

-- The padding starts with a 1, which flips the first bit. Every later block starts with the first
-- bit of the address, a 0, and flips nothing.
one_flip : anonymize identity (new identity key) (IpAddr.v4 0x0a010203) ≡ IpAddr.v4 0x8a010203
unfolding anonymize anonymize_v4 anonymize_bits flips_from flip_of new number_from number_bytes
    identity
one_flip = refl
