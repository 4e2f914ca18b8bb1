-- ===== src/Message/WalletPublicKey.antt =====
-- src/dongle/message.rs: `GetWalletPublicKey` and `WalletPublicKey`.
pub mod Laws
pub mod Decode
use icebox.Prelude.{
  ℕ, ◌+◌, ◌-◌, ◌*◌, ◌%◌, ◌^◌, ◌≤◌, ◌<◌, ◌≡◌, refl, Bool, true, false, not, ◌||◌, Option, none, some,
  List, [], ◌∷◌, ◌++◌, arith, length, ltb, leb, ◌==◌, if◌then◌else◌, length-append, All,
}
use icebox.Error.{response_wrong_length, unexpected_eof, secp, utf8}
use icebox.Outcome.{
  Outcome, ok, err, panic, diverge, assert, fail_if, index, index_range, Foreign, done, failed,
  from_foreign, Returns, ◌>>=◌, ◌>>◌,
}
use icebox.Constants.{
  btchip_cla, ins_get_wallet_public_key, ins_sign_message, ins_get_random, ins_untrusted_hash_sign,
  ins_set_alternate_coin_version,
}
use icebox.Bytes.{be_u16, be_u32, be_path, length-be_path, status_word}
use icebox.Command.{Command}
use icebox.Message.Status.{
  take_status, and_store, take_status_lem, take_status-Returns, and_store-Returns, and_store_keeps,
}
use icebox.Message.SingleShot.{SingleShot}

pub record GetWalletPublicKey : Type 0 where
  pub sent : Bool
  pub reply : List ℕ
  pub sw : ℕ
  pub bip32_path : List ℕ
  pub display : Bool

unfoldable pub new : List ℕ → Bool → Outcome GetWalletPublicKey
new bip32_path display = do
  assert (ltb (length bip32_path) 11)
  ok (record { sent = false; reply = []; sw = 0; bip32_path = bip32_path; display = display })

-- The APDU: the header, the length of what follows, the number of path elements and the path.
unfoldable pub request : GetWalletPublicKey → List ℕ
request c =
    btchip_cla
    ∷ ins_get_wallet_public_key
    ∷ (if c.display then 1 else 0)
    ∷ 0
    ∷ ((1 + 4 * length c.bip32_path) % 256)
    ∷ (length c.bip32_path % 256)
    ∷ be_path c.bip32_path

unfoldable pub encode_next : ℕ → GetWalletPublicKey → Outcome (Option (List ℕ) × GetWalletPublicKey)
unfolding request
encode_next apdu_size c =
    if c.sent then ok (none, c) else ok (some (request c), record c { sent = true })

unfoldable pub decode_reply : List ℕ → GetWalletPublicKey → Outcome (Unit {0}) × GetWalletPublicKey
decode_reply bytes c =
    and_store (take_status bytes) (λ sw reply. record c { reply = reply; sw = sw }) c

unfoldable pub into_reply : GetWalletPublicKey → ℕ × List ℕ
into_reply c = (c.sw, c.reply)

abbrev pub command : Command GetWalletPublicKey
command = record { encode_next = encode_next; decode_reply = decode_reply; into_reply = into_reply }

pub record WalletPublicKey (PublicKey : Type 0) : Type 0 where
  pub public_key : PublicKey
  pub b58_address : List ℕ
  pub chaincode : List ℕ

-- The functions of other crates that decoding calls: `PublicKey::from_slice` of secp256k1 and
-- `String::from_utf8`. A `String` is its UTF-8 bytes.
pub record KeyCodec (PublicKey : Type 0) : Type 0 where
  pub from_slice : List ℕ → Foreign PublicKey
  pub from_utf8 : List ℕ → Foreign (List ℕ)

-- `chaincode.clone_from_slice(bytes)` of a `[u8; 32]`.
unfoldable pub clone_chaincode : List ℕ → Outcome (List ℕ)
clone_chaincode bytes = if length bytes == 32 then ok bytes else panic

module _ {PublicKey : Type 0} (codec : KeyCodec PublicKey) where
  unfoldable pub decode : List ℕ → Outcome (WalletPublicKey PublicKey)
  decode bytes = do
    pk_len ← index bytes 0
    fail_if (ltb (length bytes) (2 + pk_len)) unexpected_eof
    key ← index_range 1 (1 + pk_len) bytes
    pk ← from_foreign secp (codec.from_slice key)
    addr_len ← index bytes (1 + pk_len)
    fail_if (not (2 + pk_len + addr_len + 32 == length bytes))
        (response_wrong_length ins_get_wallet_public_key (length bytes))
    text ← index_range (2 + pk_len) (2 + pk_len + addr_len) bytes
    addr ← from_foreign utf8 (codec.from_utf8 text)
    rest ← index_range (2 + pk_len + addr_len) (length bytes) bytes
    chaincode ← clone_chaincode rest
    ok (record { public_key = pk; b58_address = addr; chaincode = chaincode })
