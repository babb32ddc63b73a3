-- ===== src/Framing/ChannelType.antt =====
-- rust/telesthete/src/framing.rs: the multiplexing selector and its byte.
use telesthete.Base.{ℕ, ◌≡◌, refl, ◌==◌, if◌then◌else◌, Option, none, some, arith}

pub data ChannelType : Type 0 where
  control stream channel board drop route addressed : ChannelType

-- `as u8`.
unfoldable pub to_u8 : ChannelType → ℕ
to_u8 control = 0x00
to_u8 stream = 0x01
to_u8 channel = 0x02
to_u8 board = 0x03
to_u8 drop = 0x04
to_u8 route = 0x05
to_u8 addressed = 0x06

unfoldable pub from_u8 : ℕ → Option ChannelType
from_u8 x =
    if x == 0x00
    then some control
    else if x == 0x01
    then some stream
    else if x == 0x02
    then some channel
    else if x == 0x03
    then some board
    else if x == 0x04
    then some drop
    else if x == 0x05
    then some route
    else if x == 0x06
    then some addressed
    else none

pub from_u8-to_u8 : (t : ChannelType) → from_u8 (to_u8 t) ≡ some t
unfolding from_u8 to_u8
from_u8-to_u8 control = refl
from_u8-to_u8 _ = refl

pub to_u8-from_u8 : (x : ℕ) {t : ChannelType} → from_u8 x ≡ some t → to_u8 t ≡ x
unfolding from_u8 to_u8
to_u8-from_u8 x h = ground arith

pub ChannelType-discrete : Discrete ChannelType
ChannelType-discrete = hlevel
