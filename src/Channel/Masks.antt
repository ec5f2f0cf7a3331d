-- ===== src/Channel/Masks.antt =====
-- include/Channel.hpp: which masks a channel can have, and what the setters do to them.
use tcp_server.Base.{◌≡◌, refl, Bool, true, false, ℕ}
use tcp_server.Channel.{
  Channel, has, read_event, write_event, is_writing, is_reading, wished, Wish, reading, no_reading,
  writing, no_writing, nothing,
}

-- The masks that the setters make out of the empty one: each of reading and writing on or off.
pub data Mask : Type 0 where
  idle reads writes both : Mask

abbrev pub bits : Mask → ℕ
bits idle = 0
bits reads = read_event
bits writes = write_event
bits both = 7

abbrev pub wants_read : Mask → Bool
wants_read idle = false
wants_read reads = true
wants_read writes = false
wants_read both = true

abbrev pub wants_write : Mask → Bool
wants_write idle = false
wants_write reads = false
wants_write writes = true
wants_write both = true

-- The two wishes as independent switches.
abbrev pub switch : Wish → Bool → Bool → Bool × Bool
switch reading r w = (true, w)
switch no_reading r w = (false, w)
switch writing r w = (r, true)
switch no_writing r w = (r, false)
switch nothing r w = (false, false)

abbrev pub mask_of : Bool → Bool → Mask
mask_of false false = idle
mask_of true false = reads
mask_of false true = writes
mask_of true true = both

abbrev pub switched : Wish → Mask → Mask
switched w m = let (r, t) = switch w (wants_read m) (wants_write m) in mask_of r t

-- The bit operations of each setter are the switches: reading and writing do not touch each other,
-- and no other bit is ever set.
pub wished-bits : (w : Wish) (m : Mask) → wished w (bits m) ≡ bits (switched w m)
unfolding wished
wished-bits reading idle = refl
wished-bits reading reads = refl
wished-bits reading writes = refl
wished-bits reading both = refl
wished-bits no_reading idle = refl
wished-bits no_reading reads = refl
wished-bits no_reading writes = refl
wished-bits no_reading both = refl
wished-bits writing idle = refl
wished-bits writing reads = refl
wished-bits writing writes = refl
wished-bits writing both = refl
wished-bits no_writing idle = refl
wished-bits no_writing reads = refl
wished-bits no_writing writes = refl
wished-bits no_writing both = refl
wished-bits nothing idle = refl
wished-bits nothing reads = refl
wished-bits nothing writes = refl
wished-bits nothing both = refl

has-read : (m : Mask) → has (bits m) read_event ≡ wants_read m
has-read idle = refl
has-read reads = refl
has-read writes = refl
has-read both = refl

has-write : (m : Mask) → has (bits m) write_event ≡ wants_write m
has-write idle = refl
has-write reads = refl
has-write writes = refl
has-write both = refl

-- `isReading()` and `isWriting()` read the two switches.
pub is_writing_lem : (c : Channel) (m : Mask) → c.events ≡ bits m → is_writing c ≡ wants_write m
unfolding is_writing
is_writing_lem c m e = rw e (has-write m)

pub is_reading_lem : (c : Channel) (m : Mask) → c.events ≡ bits m → is_reading c ≡ wants_read m
unfolding is_reading
is_reading_lem c m e = rw e (has-read m)
