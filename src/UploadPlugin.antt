-- ===== src/UploadPlugin.antt =====
-- upload_plugin.cxx: the torrent plugin and the peer plugin that it gives to BitTorrent peers. The
-- torrent, the peer connections and their handles are libtorrent's, so that their types and the
-- methods of the handles that the code calls are parameters of the section.
use libtorrent_go.Base.{
  ℕ, Bool, not, Option, none, some, Result, ok, ◌>>=◌, or_fault, if◌then◌else◌, List, [], ◌∷◌,
}

-- struct upload_plugin
pub record UploadPlugin (Torrent : Type 0) : Type 0 where
  pub m_torrent : Torrent

-- struct upload_peer_plugin
pub record UploadPeerPlugin (Torrent PeerConnection : Type 0) : Type 0 where
  pub m_torrent : Torrent
  pub m_pc : PeerConnection
  pub m_tp : UploadPlugin Torrent

module _ {Torrent TorrentHandle : Type 0} (native_handle : TorrentHandle → Option Torrent) where
  -- `native_handle` is `none` for the null pointer; a reference to what it points to is undefined.
  unfoldable pub create_upload_plugin : TorrentHandle → Result (UploadPlugin Torrent)
  create_upload_plugin th = do t ← or_fault (native_handle th); ok (record { m_torrent = t })

module _ {Torrent PeerConnection PeerConnectionHandle : Type 0}
    (is_bittorrent : PeerConnectionHandle → Result Bool)
    (native_handle : PeerConnectionHandle → Option PeerConnection) where
  -- `new upload_peer_plugin(m_torrent, *pc.native_handle(), *this)`
  unfoldable pub new_peer_plugin :
      UploadPlugin Torrent
      → PeerConnectionHandle
      → Result (Option (UploadPeerPlugin Torrent PeerConnection))
  new_peer_plugin tp pc = do
    connection ← or_fault (native_handle pc)
    ok (some (record { m_torrent = tp.m_torrent; m_pc = connection; m_tp = tp }))

  -- `none` is the empty pointer; `is_bittorrent` stands for `type() == bittorrent_connection`, which
  -- need not answer for a connection that is gone.
  unfoldable pub new_connection :
      UploadPlugin Torrent
      → PeerConnectionHandle
      → Result (Option (UploadPeerPlugin Torrent PeerConnection))
  new_connection tp pc = do
    bittorrent ← is_bittorrent pc
    if not bittorrent then ok none else new_peer_plugin tp pc

module _ {Torrent PeerConnection : Type 0} where
  -- `upload_peer_plugin::type`
  unfoldable pub type : UploadPeerPlugin Torrent PeerConnection → List ℕ
  type p = b'u' ∷ b'p' ∷ b'l' ∷ b'o' ∷ b'a' ∷ b'd' ∷ []
