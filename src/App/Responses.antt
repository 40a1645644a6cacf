-- ===== src/App/Responses.antt =====
-- The bodies of the API's answers (api/core/errors.py, api/utils/success_response.py). What JSON has
-- besides texts and numbers is a parameter.
pub mod Laws
use balotly_backend.Base.{ℕ, Option, none, some, Bool, true, String, [], ◌∷◌, string_eq}
use balotly_backend.Base.Dict.{Dict, insert}
use balotly_backend.Base.Text.{Text, codes}

pub record HttpException (V : Type 0) : Type 0 where
  pub status_code : ℕ
  pub detail : Dict String V

pub record JsonResponse (V : Type 0) : Type 0 where
  pub status_code : ℕ
  pub content : Dict String V

module _ {V : Type 0} where
  -- `d.update(e)`
  abbrev pub update : Dict String V → Dict String V → Dict String V
  update d [] = d
  update d ((k, v) ∷ e) = update (insert k v d) e

  module _ (text : Text → V) where
    -- `api_error`; the keyword arguments of `extra` have other names than its own parameters.
    unfoldable pub api_error : ℕ → (code message : Text) → (extra : Dict String V) → HttpException V
    api_error status_code code message extra = record {
      status_code = status_code;
      detail = update (("code", text code) ∷ ("message", text message) ∷ []) extra;
    }

  module _ (text : Text → V) (number : ℕ → V) (boolean : Bool → V) where
    -- `success_response`
    unfoldable pub success_response : ℕ → (message : Text) → (payload : Option V) → JsonResponse V
    success_response status_code message none = record {
      status_code = status_code;
      content =
          ("status_code", number status_code)
          ∷ ("success", boolean true)
          ∷ ("message", text message)
          ∷ [];
    }
    success_response status_code message (some payload) = record {
      status_code = status_code;
      content = insert "data" payload (
          ("status_code", number status_code)
          ∷ ("success", boolean true)
          ∷ ("message", text message)
          ∷ []);
    }

    -- `read_root` (main.py)
    unfoldable pub read_root : JsonResponse V
    unfolding success_response
    read_root = success_response 200 (codes "Balotly API is running") none
