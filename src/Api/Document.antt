-- ===== src/Api/Document.antt =====
-- lumo/api.py: OPENAPI, the description of the API that it serves. The JSON schema that pydantic
-- makes of `PipelineResult` is an argument.
use lumo.Base.{true, [], ◌∷◌}
use lumo.Json.{Json, boolean, text, dict, list}

abbrev intents_path : Json
intents_path = dict (
    (
      "post",
      dict (
          ("summary", text "Run an invoice through the pipeline and record a decision")
          ∷ (
            "requestBody",
            dict (
                ("required", boolean true)
                ∷ (
                  "content",
                  dict (
                      (
                        "application/json",
                        dict (
                            (
                              "schema",
                              dict (
                                  ("type", text "object")
                                  ∷ (
                                    "properties",
                                    dict (("invoice", dict (("type", text "string") ∷ [])) ∷ []),
                                  )
                                  ∷ ("required", list (text "invoice" ∷ []))
                                  ∷ []),
                            )
                            ∷ []),
                      )
                      ∷ []),
                )
                ∷ []),
          )
          ∷ (
            "responses",
            dict (
                (
                  "200",
                  dict (
                      ("description", text "Decision (proposed, held, or refused)")
                      ∷ (
                        "content",
                        dict (
                            (
                              "application/json",
                              dict (
                                  (
                                    "schema",
                                    dict (("$ref", text "#/components/schemas/Decision") ∷ []),
                                  )
                                  ∷ []),
                            )
                            ∷ []),
                      )
                      ∷ []),
                )
                ∷ []),
          )
          ∷ []),
    )
    ∷ [])

abbrev intent_by_id : Json
intent_by_id = dict (
    (
      "get",
      dict (
          ("summary", text "Fetch a stored intent")
          ∷ (
            "parameters",
            list (
                dict (
                  ("name", text "intent_id")
                  ∷ ("in", text "path")
                  ∷ ("required", boolean true)
                  ∷ ("schema", dict (("type", text "string") ∷ []))
                  ∷ [])
                ∷ []),
          )
          ∷ (
            "responses",
            dict (
                ("200", dict (("description", text "Intent row") ∷ []))
                ∷ ("404", dict (("description", text "Unknown intent") ∷ []))
                ∷ []),
          )
          ∷ []),
    )
    ∷ [])

abbrev attestations_path : Json
attestations_path = dict (
    (
      "post",
      dict (
          ("summary", text "Record an oracle attestation for an intent")
          ∷ (
            "requestBody",
            dict (
                ("required", boolean true)
                ∷ (
                  "content",
                  dict (
                      (
                        "application/json",
                        dict (
                            (
                              "schema",
                              dict (
                                  ("type", text "object")
                                  ∷ (
                                    "properties",
                                    dict (
                                        (
                                          "kind",
                                          dict (
                                              ("type", text "string")
                                              ∷ ("enum", list (text "Shipped" ∷ text "Failed" ∷ []))
                                              ∷ []),
                                        )
                                        ∷ []),
                                  )
                                  ∷ ("required", list (text "kind" ∷ []))
                                  ∷ []),
                            )
                            ∷ []),
                      )
                      ∷ []),
                )
                ∷ []),
          )
          ∷ (
            "responses",
            dict (
                ("200", dict (("description", text "Attestation recorded") ∷ []))
                ∷ ("404", dict (("description", text "Unknown intent") ∷ []))
                ∷ []),
          )
          ∷ []),
    )
    ∷ [])

abbrev metrics_path : Json
metrics_path = dict (
    (
      "get",
      dict (
          ("summary", text "Counters and gauges snapshot")
          ∷ ("responses", dict (("200", dict (("description", text "Metrics") ∷ [])) ∷ []))
          ∷ []),
    )
    ∷ [])

abbrev webhooks_path : Json
webhooks_path = dict (
    (
      "post",
      dict (
          ("summary", text "Register a webhook URL for pipeline events")
          ∷ (
            "requestBody",
            dict (
                ("required", boolean true)
                ∷ (
                  "content",
                  dict (
                      (
                        "application/json",
                        dict (
                            (
                              "schema",
                              dict (
                                  ("type", text "object")
                                  ∷ (
                                    "properties",
                                    dict (("url", dict (("type", text "string") ∷ [])) ∷ []),
                                  )
                                  ∷ ("required", list (text "url" ∷ []))
                                  ∷ []),
                            )
                            ∷ []),
                      )
                      ∷ []),
                )
                ∷ []),
          )
          ∷ ("responses", dict (("200", dict (("description", text "Registered URLs") ∷ [])) ∷ []))
          ∷ []),
    )
    ∷ [])

-- OPENAPI
abbrev pub openapi : Json → Json
openapi result_schema = dict (
    ("openapi", text "3.0.3")
    ∷ (
      "info",
      dict (
          ("title", text "Lumo API")
          ∷ ("version", text "0.1.0")
          ∷ ("description", text "Propose invoice payments through the Lumo guard chain.")
          ∷ []),
    )
    ∷ (
      "paths",
      dict (
          ("/v1/intents", intents_path)
          ∷ ("/v1/intents/{intent_id}", intent_by_id)
          ∷ ("/v1/intents/{intent_id}/attest", attestations_path)
          ∷ ("/v1/metrics", metrics_path)
          ∷ ("/v1/webhooks", webhooks_path)
          ∷ []),
    )
    ∷ ("components", dict (("schemas", dict (("Decision", result_schema) ∷ [])) ∷ []))
    ∷ [])
