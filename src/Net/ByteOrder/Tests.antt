-- ===== src/Net/ByteOrder/Tests.antt =====
-- Tests of the byte order of net/byte_order.cc.
use shmily.Base.{◌≡◌, refl}
use shmily.Net.ByteOrder.{swap_word, swap_double_word}

swap_port : swap_word 0x1234 ≡ 0x3412
unfolding swap_word
swap_port = refl

swap_number : swap_double_word 0x12345678 ≡ 0x78563412
unfolding swap_double_word
swap_number = refl
