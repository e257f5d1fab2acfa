-- ===== src/I18n/Locales/Hi/About.antt =====
-- The texts of frontend/src/lib/i18n/locales/hi.ts: `pages.about`.
use agent_os_test.Prelude.{[], ◌∷◌}
use agent_os_test.I18n.Catalogue.{Entries, end}
use agent_os_test.I18n.Notation.{texts, groups}

abbrev pub about : Entries
about =
    texts
      (("title", "THYNACT के बारे में")
        ∷ ("navLabel", "THYNACT के बारे में")
        ∷ (
          "heroStatement",
          "बुद्धिमत्ता को केवल उत्तर देने से आगे जाना चाहिए। उसे काम को सुरक्षित रूप से आगे बढ़ाना चाहिए।",
        )
        ∷ ("whyTitle", "THYNACT क्यों है")
        ∷ (
          "whyBody",
          "अधिकांश AI उत्तर पर रुक जाता है। एक अच्छे उत्तर और पूरे हुए काम के बीच की दूरी में ही असली सिस्टम रहते हैं — क्रेडेंशियल, अनुमतियाँ, दुष्प्रभाव, और यह प्रश्न कि किसने क्या अधिकृत किया। THYNACT इस दूरी को पाटने के लिए बना है, यह दिखावा किए बिना कि यह दूरी कभी थी ही नहीं।",
        )
        ∷ ("thinkTitle", "सोचना")
        ∷ (
          "thinkBody",
          "अनुरोध को समझना, जटिलता और जोखिम के अनुसार रूट करना, जो ज़रूरी है उसे याद रखना, योजना तभी बनाना जब वह अपनी लागत वसूल करे, और कार्य से पहले सत्यापित करना।",
        )
        ∷ ("actTitle", "कार्य")
        ∷ (
          "actBody",
          "एक नियंत्रित ब्रोकर के माध्यम से वास्तविक सेवाओं तक पहुँचना, निष्पादित करना, स्वचालित करना और शेड्यूल करना — और हर चरण दर्ज करना ताकि परिणाम उस अनुरोध तक जाँचा जा सके जिसने उसे उत्पन्न किया।",
        )
        ∷ ("controlTitle", "नियंत्रण")
        ∷ (
          "controlBody",
          "हर परिणामकारी कार्रवाई के चारों ओर अनुमति, स्वीकृति, पहचान और टेनेंट सीमाएँ रहती हैं। क्षमता चुपचाप अधिकार नहीं बन जाती।",
        )
        ∷ ("flowTitle", "THYNACT में काम कैसे आगे बढ़ता है")
        ∷ ("flowBody", "परिणामकारी चरण नियंत्रण से होकर गुज़रते हैं। बाकी सब तेज़ पथ लेता है।")
        ∷ [])
      (groups
        ((
          "flow",
          texts
              (("intent", "इरादा")
                ∷ ("think", "सोचना")
                ∷ ("plan", "योजना")
                ∷ ("verify", "सत्यापन")
                ∷ ("act", "कार्य")
                ∷ ("result", "परिणाम")
                ∷ ("control", "नियंत्रण")
                ∷ [])
              end,
        )
          ∷ [])
        (texts (("principlesTitle", "यह किन बातों पर टिका है") ∷ []) (
          groups
            ((
              "principles",
              groups
                  ((
                    "fast",
                    texts
                        (("title", "डिफ़ॉल्ट रूप से तेज़")
                          ∷ (
                            "body",
                            "सरल काम सरल ही रहता है। योजना, रिट्रीवल और मल्टी-एजेंट निष्पादन वैकल्पिक लागत हैं, डिफ़ॉल्ट पथ कभी नहीं।",
                          )
                          ∷ [])
                        end,
                  )
                    ∷ (
                      "real",
                      texts
                          (("title", "नकल नहीं, वास्तविकता")
                            ∷ (
                              "body",
                              "\"काम कर रहा है\" का अर्थ है वास्तविक प्रदाता के साथ वास्तविक निष्पादन से सत्यापित — न कि यह कि कोई एडाप्टर, कार्ड या पास होता मॉक मौजूद है।",
                            )
                            ∷ [])
                          end,
                    )
                    ∷ (
                      "authority",
                      texts
                          (("title", "बुद्धिमत्ता अधिकार नहीं है")
                            ∷ (
                              "body",
                              "भेजना, प्रकाशित करना, हटाना, खर्च करना और डिप्लॉय करना नीति से होकर गुज़रते हैं और, जहाँ आवश्यक हो, ऐसी स्वीकृति से जो मॉडल स्वयं को नहीं दे सकता।",
                            )
                            ∷ [])
                          end,
                    )
                    ∷ (
                      "neutral",
                      texts
                          (("title", "प्रदाता-निरपेक्ष")
                            ∷ (
                              "body",
                              "मॉडल और टूल बदले जा सकने वाला इंफ़्रास्ट्रक्चर हैं। मूल तर्क कैनोनिकल क्षमताओं की भाषा बोलता है, किसी वेंडर के API नामों की नहीं।",
                            )
                            ∷ [])
                          end,
                    )
                    ∷ (
                      "continuity",
                      texts
                          (("title", "निरंतरता के लिए बना")
                            ∷ (
                              "body",
                              "मेमोरी, वर्कफ़्लो और टिकाऊ स्थिति सत्र से आगे टिकने के लिए बनाई गई हैं, ताकि काम फिर से शुरू करने के बजाय आगे बढ़ाया जा सके।",
                            )
                            ∷ [])
                          end,
                    )
                    ∷ (
                      "governed",
                      texts
                          (("title", "नियंत्रित कार्रवाई")
                            ∷ (
                              "body",
                              "हर टूल रन उसके परिणाम और उसके पीछे के अनुरोध की कोरिलेशन ID के साथ दर्ज होता है। ऐसा ऑडिट ट्रेल जिसे चुपचाप बदला जा सके, ऑडिट ट्रेल नहीं है।",
                            )
                            ∷ [])
                          end,
                    )
                    ∷ [])
                  end,
            )
              ∷ [])
            (texts
              (("visionTitle", "यह किस दिशा में जा रहा है")
                ∷ (
                  "visionBody",
                  "यह दिशा है, उपलब्ध क्षमता नहीं। आज क्या लाइव है, यह उत्पाद अवलोकन और सिस्टम स्वास्थ्य पेज पर दिखता है।",
                )
                ∷ [])
              (groups
                ((
                  "vision",
                  texts
                      (("surfaces", "और सतहें — वेब कंट्रोल सेंटर के साथ मोबाइल और वॉइस")
                        ∷ ("connectors", "व्यावसायिक सिस्टम में व्यापक कनेक्टर कवरेज")
                        ∷ ("automation", "समृद्ध शेड्यूल्ड और इवेंट-आधारित ऑटोमेशन")
                        ∷ ("multimodal", "मल्टीमॉडल समझ, जहाँ वह काम में सचमुच मदद करे")
                        ∷ [])
                      end,
                )
                  ∷ [])
                (texts
                  (("ctaTitle", "जब आप तैयार हों")
                    ∷ (
                      "ctaBody",
                      "कोई सेवा कनेक्ट करें, या THYNACT को एक उद्देश्य दें और उसे काम करते देखें।",
                    )
                    ∷ ("ctaPrimary", "डैशबोर्ड खोलें")
                    ∷ ("ctaSecondary", "कनेक्टर देखें")
                    ∷ ("shipped", "आज उपलब्ध")
                    ∷ ("direction", "दिशा")
                    ∷ [])
                  end))))))
