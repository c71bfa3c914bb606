-- ===== src/Disk/Command.antt =====
-- `do_request` of src/srv/disk/disk.c: the values that go to the ports of the drive, in their order. The
-- loops that wait for the drive, and the data of a first sector, are not among them.
use fat.Prelude.{
  ℕ, ◌+◌, ◌*◌, ◌/◌, ◌%◌, ◌^◌, ◌<◌, ◌≡◌, Bool, true, false, Option, none, some, List, [], ◌∷◌,
  if◌then◌else◌, arith, refl,
}

pub data Command : Type 0 where
  lba28_write : Command
  lba28_read : Command
  lba48_write : Command
  lba48_read : Command
  iden : Command
  other : ℕ → Command

pub data Port : Type 0 where
  err_feature : Port
  sector_cnt : Port
  sector_low : Port
  sector_mid : Port
  sector_high : Port
  device : Port
  status_cmd : Port

abbrev outb : Port → ℕ → Port × ℕ
outb port value = (port, value % 256)

-- With 28 bits of the number of the sector, 4 of them in the device register.
lba28 : ℕ → ℕ → ℕ → List (Port × ℕ)
lba28 cmd nsect sector =
    outb device (224 + sector / 2 ^ 24 % 16)
    ∷ outb err_feature 0
    ∷ outb sector_cnt nsect
    ∷ outb sector_low sector
    ∷ outb sector_mid (sector / 2 ^ 8)
    ∷ outb sector_high (sector / 2 ^ 16)
    ∷ outb status_cmd cmd
    ∷ []

lba48 : ℕ → ℕ → ℕ → List (Port × ℕ)
lba48 cmd nsect sector =
    outb device 64
    ∷ outb err_feature 0
    ∷ outb sector_cnt (nsect / 2 ^ 8)
    ∷ outb sector_low (sector / 2 ^ 24)
    ∷ outb sector_mid (sector / 2 ^ 32)
    ∷ outb sector_high (sector / 2 ^ 40)
    ∷ outb err_feature 0
    ∷ outb sector_cnt nsect
    ∷ outb sector_low sector
    ∷ outb sector_mid (sector / 2 ^ 8)
    ∷ outb sector_high (sector / 2 ^ 16)
    ∷ outb status_cmd cmd
    ∷ []

-- `nsect` is an unsigned short. `none` is a command that is not known.
pub do_request : Command → ℕ → ℕ → Option (List (Port × ℕ))
unfolding lba28 lba48
do_request lba28_write nsect sector = some (lba28 48 (nsect % 2 ^ 16) sector)
do_request lba28_read nsect sector = some (lba28 32 (nsect % 2 ^ 16) sector)
do_request lba48_write nsect sector = some (lba48 52 (nsect % 2 ^ 16) sector)
do_request lba48_read nsect sector = some (lba48 36 (nsect % 2 ^ 16) sector)
do_request iden nsect sector = some (lba28 236 (nsect % 2 ^ 16) sector)
do_request (other n) nsect sector = none

-- A drive with 48 bits keeps the last two values of a register.
pub record Registers : Type 0 where
  pub cnt : ℕ × ℕ
  pub low : ℕ × ℕ
  pub mid : ℕ × ℕ
  pub high : ℕ × ℕ

-- A value pushes the one before it on.
out_to : Port × ℕ → Registers → Registers
out_to (err_feature, n) r = r
out_to (sector_cnt, n) r = record r { cnt = (n, r.cnt.0) }
out_to (sector_low, n) r = record r { low = (n, r.low.0) }
out_to (sector_mid, n) r = record r { mid = (n, r.mid.0) }
out_to (sector_high, n) r = record r { high = (n, r.high.0) }
out_to (device, n) r = r
out_to (status_cmd, n) r = r

pub outs : List (Port × ℕ) → Registers → Registers
unfolding out_to
outs [] r = r
outs (o ∷ l) r = outs l (out_to o r)

-- The number of the sector and the count that the drive then reads from its registers.
pub address : Registers → ℕ
address r =
    r.low.0
    + r.mid.0 * 2 ^ 8
    + r.high.0 * 2 ^ 16
    + r.low.1 * 2 ^ 24
    + r.mid.1 * 2 ^ 32
    + r.high.1 * 2 ^ 40

pub count : Registers → ℕ
count r = r.cnt.0 + r.cnt.1 * 2 ^ 8

-- The command that the drive carries out: the last value at its port.
pub command : List (Port × ℕ) → Option ℕ
command [] = none
command ((status_cmd, n) ∷ l) = elim (command l) [ none ↦ some n | some m ↦ some m ]
command (o ∷ l) = command l

low_bytes : (n : ℕ) → n % 256 + n / 2 ^ 8 % 256 * 2 ^ 8 + n / 2 ^ 16 % 256 * 2 ^ 16 ≡ n % 2 ^ 24
low_bytes n = omega arith

above : (n : ℕ) → (n / 2 ^ 24 / 2 ^ 8 ≡ n / 2 ^ 32) × (n / 2 ^ 24 / 2 ^ 16 ≡ n / 2 ^ 40)
above n = (omega arith, omega arith)

high_bytes :
    (n : ℕ)
    → n < 2 ^ 48
    → n / 2 ^ 24 % 256 * 2 ^ 24 + n / 2 ^ 32 % 256 * 2 ^ 32 + n / 2 ^ 40 % 256 * 2 ^ 40
      ≡ n / 2 ^ 24 * 2 ^ 24
high_bytes n h = omega (arith, low_bytes (n / 2 ^ 24), above n)

six_bytes :
    (n : ℕ)
    → n < 2 ^ 48
    → n % 256
        + n / 2 ^ 8 % 256 * 2 ^ 8
        + n / 2 ^ 16 % 256 * 2 ^ 16
        + n / 2 ^ 24 % 256 * 2 ^ 24
        + n / 2 ^ 32 % 256 * 2 ^ 32
        + n / 2 ^ 40 % 256 * 2 ^ 40
      ≡ n
six_bytes n h = omega (arith, low_bytes n, high_bytes n h)

two_bytes : (n : ℕ) → n < 2 ^ 16 → n % 2 ^ 16 % 256 + n % 2 ^ 16 / 2 ^ 8 % 256 * 2 ^ 8 ≡ n
two_bytes n h = omega arith

-- READ EXT and WRITE EXT.
abbrev pub read_ext : ℕ
read_ext = 36

abbrev pub write_ext : ℕ
write_ext = 52

-- A command with 48 bits, for reads and writes, hands the drive the number of the sector, below 2^48, and
-- the count, below 2^16, whatever was in its registers.
pub address-do_request :
    (write : Bool) (nsect sector : ℕ) (r : Registers)
    → nsect < 2 ^ 16
    → sector < 2 ^ 48
    → (l : List (Port × ℕ)) × (do_request (if write then lba48_write else lba48_read) nsect sector
        ≡ some l)
      × (command l ≡ some (if write then write_ext else read_ext))
      × (address (outs l r) ≡ sector)
      × (count (outs l r) ≡ nsect)
unfolding do_request outs address count command
address-do_request true nsect sector r h k = (_, refl, refl, six_bytes sector k, two_bytes nsect h)
address-do_request false nsect sector r h k = (_, refl, refl, six_bytes sector k, two_bytes nsect h)
