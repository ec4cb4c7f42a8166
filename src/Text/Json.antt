-- ===== src/Text/Json.antt =====
-- JSON values: what a token's claims decode to, and the values of an interface{} that is marshalled.
use be_modami_chat_service.Text.{GoString}

-- A decoded JSON value: `scalar` is a number, a Boolean or null.
mutual
  pub data Json : Type 0 where
    text : GoString → Json
    object : Fields → Json
    array : Items → Json
    scalar : Json

  pub data Fields : Type 0 where
    end : Fields
    field : GoString → Json → Fields → Fields

  pub data Items : Type 0 where
    nil : Items
    item : Json → Items → Items
