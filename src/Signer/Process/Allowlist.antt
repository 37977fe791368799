-- ===== src/Signer/Process/Allowlist.antt =====
-- The allowlist after the configurations of a context.
use greenlight.Prelude.{ℕ, ◌≡◌, ◌∙◌, refl, some, List, [], ◌∷◌}
use greenlight.Persist.Map.{Key}
use greenlight.Persist.Merge.{State}
use greenlight.Persist.Store.{RoundTrips, get_node_allowlist}
use greenlight.Persist.Store.Channels.{get_node_allowlist-update}
use greenlight.Signer.Model.{
  Request, gl_config_call, send_pay_call, sign_message_call, fund_channel_call, lsp_invoice_call,
  invoice_call, pay_call, pre_approve_invoice_call, trampoline_pay_call, plain,
}
use greenlight.Signer.Process.{Handler, allow, allow_all}

-- The address of the last configuration, or else `before`.
abbrev pub last_close_to : List (List ℕ) → List Request → List (List ℕ)
last_close_to before [] = before
last_close_to before (c ∷ calls) =
    last_close_to (elim c [ gl_config_call addr ↦ addr ∷ [] | other_call ↦ before ]) calls

module _ {V I : Type 0} (h : Handler V I) (key : Key) (known : h.node_key ≡ some key)
    (written : RoundTrips h.allowlist) where
  get_node_allowlist-allow :
      (addr : List ℕ) (s : State V)
      → get_node_allowlist h.allowlist [] key (allow h addr s) ≡ addr ∷ []
  unfolding allow
  get_node_allowlist-allow addr s =
      rw (known, allow) (get_node_allowlist-update h.allowlist [] (addr ∷ []) key key s written).0

  -- If the node's id is a public key, and reading inverts writing of allowlists, then the allowlist
  -- of the node holds the `close_to_addr` of the last configuration and nothing else: an address does
  -- not join those that were there. With no configuration the allowlist is as before.
  pub get_node_allowlist-allow_all :
      (calls : List Request) (s : State V)
      → get_node_allowlist h.allowlist [] key (allow_all h calls s)
        ≡ last_close_to (get_node_allowlist h.allowlist [] key s) calls
  unfolding allow_all
  get_node_allowlist-allow_all [] s = refl
  get_node_allowlist-allow_all (gl_config_call addr ∷ calls) s =
      get_node_allowlist-allow_all calls (allow h addr s)
      ∙ rw (get_node_allowlist-allow addr s) refl
  get_node_allowlist-allow_all (send_pay_call b ∷ calls) s = get_node_allowlist-allow_all calls s
  get_node_allowlist-allow_all (sign_message_call m ∷ calls) s =
      get_node_allowlist-allow_all calls s
  get_node_allowlist-allow_all (fund_channel_call id ∷ calls) s =
      get_node_allowlist-allow_all calls s
  get_node_allowlist-allow_all (lsp_invoice_call ∷ calls) s = get_node_allowlist-allow_all calls s
  get_node_allowlist-allow_all (invoice_call ∷ calls) s = get_node_allowlist-allow_all calls s
  get_node_allowlist-allow_all (pay_call b ∷ calls) s = get_node_allowlist-allow_all calls s
  get_node_allowlist-allow_all (pre_approve_invoice_call b ∷ calls) s =
      get_node_allowlist-allow_all calls s
  get_node_allowlist-allow_all (trampoline_pay_call b ∷ calls) s =
      get_node_allowlist-allow_all calls s
  get_node_allowlist-allow_all (plain m ∷ calls) s = get_node_allowlist-allow_all calls s
