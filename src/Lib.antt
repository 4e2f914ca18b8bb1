-- ===== src/Lib.antt =====
-- icebox, a wallet for the Ledger Nano S: the protocol with the dongle, and the wallet.
--
-- The parts, from the device upwards:
--   Transport      src/dongle/ledger.rs, write_apdu and read_apdu: a message (an APDU) is cut into HID
--                  reports of 64 bytes with a channel, a tag and a sequence number, and read back.
--                  Transport.Frame is one report, Transport.Apdu the two loops, Transport.Delivery and
--                  Transport.Sound relate them to the reports that a device takes and hands out.
--   Command        src/dongle/message.rs, trait Command, and HardDongle::exchange of
--                  src/dongle/ledger.rs: APDUs are sent until the command has no more. A record of the
--                  three operations stands for the trait; Command.Exchange is the interface under which
--                  the loop ends, and Command.Transcript lists what a command sends.
--   Message        src/dongle/message.rs, one module for each command with its `new`, `encode_next`,
--                  `decode_reply` and `into_reply`, and the decoders of two replies.
--                  Message.SingleShot is the interface of the commands of one APDU.
--   Cutpoints      src/util.rs, the encoders that mark where a serialisation may be cut.
--   Packets        the part of `encode_next` in which the three commands with cuts fill an APDU; the
--                  interface CutCommand of Packets.Whole is filled by each of them.
--   Signature      src/util.rs, the conversions of signatures.
--   Dongle         src/dongle/mod.rs, the functions of the trait over `exchange`.
--                  Dongle.Trait is the trait as the wallet sees it, and
--                  Dongle.Discovery get_unique of src/dongle/ledger.rs.
--   Wallet         src/wallet.rs. Path and Cipher are the keys of an entry and its encryption, Entry and
--                  Sealed its 336 bytes and its block of 352; Store and Change are the methods of
--                  EncryptedWallet, Pick and Coins get_inputs_and_change and get_script_sig, File the bytes of
--                  save and load. Crates lists what other crates give, Honest what is assumed of the
--                  dongle. Contents is the abstract view of a wallet, the list of what its blocks hold:
--                  Grow, Rerandomize, Put, MarkSpent, Updates and Receive to ReceiveAll show what
--                  each method does to it, and Lookup, Recorded, Balance and NextUnused what is
--                  read from it. Keeping is what holds on every dongle, by the calls of Invariant.
--                  Layout and ReadBack are about the bytes of an entry, Conserve, Settle and
--                  Spending about coins, SaveLoad about the file, Hardened about paths. A method that
--                  takes `&mut self` works on the wallet beside the dongle, and one that takes
--                  `&mut Spend` on the spend.
--   Error, Constants, Spend   src/error.rs, src/constants.rs, src/spend.rs.
--   Outcome, Io, Bytes, Prelude   what the model shares. An Outcome is a value, an error, a panic
--                  (assert, index, unwrap, overflow) or a loop that did not end on its fuel. Io passes
--                  the state of the device.
--
-- Numbers: a byte, a u16 and a usize are ℕ; casts to u8 and u16 are written out with `%`, and
-- subtraction of a usize panics below 0 (checked_sub). The sequence number panics at 2 ^ 16.
--
-- Fuel: the loop of write_apdu gets the length of the message, that of read_apdu 2 ^ 16 rounds, the
-- loop that marks cuts the length of the buffer, the loop that fills an APDU the number of cuts; the
-- theorems below show that these are enough. The fuel of `exchange` is a parameter; one more round than
-- there are APDUs is enough.
--
-- Code of other crates is a parameter: the HID library (record Hid), the consensus encodings of the
-- bitcoin crate (record Consensus), secp256k1 and UTF-8 (records KeyCodec and Secp) and base64. What is
-- assumed of them stands as a hypothesis: a device hands out bytes, and a u32 is encoded in four bytes.
--
-- The wallet adds AES, SHA-256, verification, addresses and scripts (record Crates); the records
-- Keyed and Signing, which stand for an honest dongle, say that the dongle derives one key from a
-- path of five steps, as the wallet's are, has random bytes, and signs what the wallet asks for, and
-- that AES in counter mode undoes itself. A String is its bytes in UTF-8. Examples.Ledger has a HID
-- device on which the hardware dongle keeps all of this, and the examples of the wallet run on it.
-- The index of an entry is a usize, far below the 2 ^ 64 at which `index + 1` would overflow. Sums
-- of amounts, and fees, panic at 2 ^ 64. The time that `update` asks for is its argument.
--
-- Not modelled: src/main.rs, the calls of the file system in save and load, Display of an
-- entry and of errors, and log output.
pub mod Prelude
pub mod Error
pub mod Outcome
pub mod Constants
pub mod Bytes
pub mod Io
pub mod Transport
pub mod Command
pub mod Message
pub mod Bitcoin
pub mod Spend
pub mod Cutpoints
pub mod Packets
pub mod Examples
pub mod Signature
pub mod Dongle
pub mod Wallet
