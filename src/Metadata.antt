-- ===== src/Metadata.antt =====
-- core/metadata: the parameters of the metadata of a wallet, and `WalletMetadata`.
pub mod Parameters
pub mod Wallet
