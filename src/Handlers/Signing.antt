-- ===== src/Handlers/Signing.antt =====
-- What a request to each endpoint of http_groups.go has to be signed over.
use etemsg_server.Base.{Option, none, some, [], ◌∷◌, trim_space}
use etemsg_server.Auth.Signed.{SignedRequest}
use etemsg_server.Handlers.Texts.{format_int}
use etemsg_server.Handlers.Guards.{as_request}
use etemsg_server.Handlers.Routing.{Endpoint}
use etemsg_server.Handlers.Serving.{Params}

abbrev pub signed_parts : {P : Type 0} → Option P → (P → SignedRequest) → Option SignedRequest
signed_parts none parts = none
signed_parts (some req) parts = some (parts req)

-- The user, the signed fields, the timestamp, the nonce and the signature of a request; `none` where
-- its parameters do not decode.
abbrev pub signed_request : Params → Endpoint → Option SignedRequest
signed_request p Endpoint.create_group = signed_parts p.create (λ req.
    as_request (trim_space req.creator)
      (trim_space req.group_id ∷ req.name_enc ∷ trim_space req.creator ∷ []) req.timestamp req.nonce
      req.signature)
signed_request p Endpoint.list_groups = signed_parts p.list (λ req.
    as_request (trim_space req.user_id) (trim_space req.user_id ∷ []) req.timestamp req.nonce
      req.signature)
signed_request p Endpoint.search_groups = signed_parts p.search (λ req.
    as_request (trim_space req.user_id)
      (trim_space req.user_id ∷ trim_space req.by ∷ trim_space req.q ∷ []) req.timestamp req.nonce
      req.signature)
signed_request p (Endpoint.group_info gid) = signed_parts p.info (λ req.
    as_request (trim_space req.user_id) (gid ∷ trim_space req.user_id ∷ []) req.timestamp req.nonce
      req.signature)
signed_request p (Endpoint.dissolve_group gid) = signed_parts p.dissolve (λ req.
    as_request (trim_space req.user_id) (gid ∷ trim_space req.user_id ∷ []) req.timestamp req.nonce
      req.signature)
signed_request p (Endpoint.upload_key_package gid) = signed_parts p.upload (λ req.
    as_request (trim_space req.user_id)
      (gid ∷ trim_space req.user_id ∷ trim_space req.kp_id ∷ trim_space req.kp_hash ∷ [])
      req.timestamp req.nonce req.signature)
signed_request p (Endpoint.get_key_package gid) = signed_parts p.key_package (λ req.
    as_request (trim_space req.user_id) (gid ∷ trim_space req.user_id ∷ trim_space req.kp_id ∷ [])
      req.timestamp req.nonce req.signature)
signed_request p (Endpoint.create_join_request gid) = signed_parts p.join (λ req.
    as_request (trim_space req.user_id)
      (gid
        ∷ trim_space req.request_id
        ∷ trim_space req.applicant
        ∷ trim_space req.kp_id
        ∷ trim_space req.kp_hash
        ∷ req.text_ct
        ∷ req.text_iv
        ∷ req.text_tag
        ∷ req.text_wrapped_key
        ∷ [])
      req.timestamp req.nonce req.signature)
signed_request p (Endpoint.list_join_requests gid) = signed_parts p.join_list (λ req.
    as_request (trim_space req.user_id) (gid ∷ trim_space req.user_id ∷ []) req.timestamp req.nonce
      req.signature)
signed_request p (Endpoint.decide_join_request gid id) = signed_parts p.decision (λ req.
    as_request (trim_space req.user_id) (gid ∷ id ∷ trim_space req.decision ∷ []) req.timestamp
      req.nonce req.signature)
signed_request p (Endpoint.create_commit gid) = signed_parts p.commit (λ req.
    as_request (trim_space req.user_id)
      (gid
        ∷ format_int req.epoch
        ∷ format_int req.parent_epoch
        ∷ req.kind
        ∷ trim_space req.data_hash
        ∷ [])
      req.timestamp req.nonce req.signature)
signed_request p (Endpoint.list_commits gid) = signed_parts p.log_list (λ req.
    as_request (trim_space req.user_id) (gid ∷ format_int req.since_epoch ∷ []) req.timestamp
      req.nonce req.signature)
signed_request p (Endpoint.create_welcome gid) = signed_parts p.welcome (λ req.
    as_request (trim_space req.user_id)
      (gid ∷ trim_space req.target_user ∷ trim_space req.data_hash ∷ format_int req.epoch ∷ [])
      req.timestamp req.nonce req.signature)
signed_request p (Endpoint.list_welcomes gid) = signed_parts p.welcome_list (λ req.
    as_request (trim_space req.user_id) (gid ∷ trim_space req.user_id ∷ []) req.timestamp req.nonce
      req.signature)
signed_request p (Endpoint.send_message gid) = signed_parts p.message (λ req.
    as_request (trim_space req.user_id)
      (gid
        ∷ trim_space req.msg_id
        ∷ format_int req.epoch
        ∷ req.ciphertext
        ∷ req.msg_type
        ∷ req.file_id
        ∷ [])
      req.timestamp req.nonce req.signature)
signed_request p (Endpoint.list_messages gid) = signed_parts p.message_list (λ req.
    as_request (trim_space req.user_id) (gid ∷ format_int req.since_seq ∷ []) req.timestamp
      req.nonce req.signature)
signed_request p (Endpoint.ack_messages gid) = signed_parts p.ack (λ req.
    as_request (trim_space req.user_id) (gid ∷ format_int req.last_seq ∷ []) req.timestamp req.nonce
      req.signature)
signed_request p (Endpoint.start_owner_transfer gid) = signed_parts p.transfer (λ req.
    as_request (trim_space req.user_id)
      (gid ∷ trim_space req.user_id ∷ trim_space req.designee ∷ []) req.timestamp req.nonce
      req.signature)
signed_request p (Endpoint.get_owner_transfer gid) = signed_parts p.info (λ req.
    as_request (trim_space req.user_id) (gid ∷ trim_space req.user_id ∷ []) req.timestamp req.nonce
      req.signature)
signed_request p (Endpoint.decide_owner_transfer gid accept) =
    signed_parts p.transfer_decision (λ req.
      as_request (trim_space req.user_id) (gid ∷ trim_space req.user_id ∷ []) req.timestamp
        req.nonce req.signature)
signed_request p (Endpoint.leave_group gid) = signed_parts p.leave (λ req.
    as_request (trim_space req.user_id) (gid ∷ trim_space req.user_id ∷ []) req.timestamp req.nonce
      req.signature)
signed_request p (Endpoint.list_pending_removals gid) = signed_parts p.info (λ req.
    as_request (trim_space req.user_id) (gid ∷ trim_space req.user_id ∷ []) req.timestamp req.nonce
      req.signature)
signed_request p (Endpoint.clear_pending_removals gid) = signed_parts p.clear (λ req.
    as_request (trim_space req.user_id) (gid ∷ trim_space req.user_id ∷ []) req.timestamp req.nonce
      req.signature)
signed_request p (Endpoint.kick_member gid) = signed_parts p.kick (λ req.
    as_request (trim_space req.user_id)
      (gid ∷ trim_space req.user_id ∷ trim_space req.target_user ∷ []) req.timestamp req.nonce
      req.signature)
