-- ===== src/Plots/Geant.antt =====
-- misc/geant.py: the measured convergence times, in milliseconds, of the failures of the GEANT network.
use ns3_sim.Prelude.{ℕ, [], ◌∷◌}
use ns3_sim.Python.Dict.{Dict}
use ns3_sim.Python.Text.{Text, codes}

abbrev pub geant_all : Dict Text ℕ
geant_all =
    (codes "15", 460)
    ∷ (codes "11", 445)
    ∷ (codes "14", 480)
    ∷ (codes "23", 450)
    ∷ (codes "30", 210)
    ∷ (codes "27", 445)
    ∷ (codes "21", 435)
    ∷ (codes "7", 505)
    ∷ (codes "28", 215)
    ∷ (codes "4", 445)
    ∷ (codes "10", 235)
    ∷ (codes "9", 525)
    ∷ (codes "17", 490)
    ∷ (codes "31", 475)
    ∷ (codes "32", 520)
    ∷ (codes "20", 480)
    ∷ (codes "35", 225)
    ∷ (codes "18", 460)
    ∷ (codes "34", 500)
    ∷ (codes "19", 445)
    ∷ (codes "33", 460)
    ∷ (codes "16", 460)
    ∷ (codes "22", 470)
    ∷ (codes "0", 510)
    ∷ (codes "24", 505)
    ∷ (codes "5", 495)
    ∷ (codes "8", 460)
    ∷ (codes "3", 490)
    ∷ (codes "6", 485)
    ∷ (codes "25", 460)
    ∷ (codes "13", 430)
    ∷ (codes "1", 480)
    ∷ (codes "29", 215)
    ∷ (codes "2", 450)
    ∷ (codes "26", 460)
    ∷ (codes "12", 440)
    ∷ []

abbrev pub geant_no_custom : Dict Text ℕ
geant_no_custom =
    (codes "15", 255)
    ∷ (codes "11", 245)
    ∷ (codes "14", 280)
    ∷ (codes "23", 250)
    ∷ (codes "30", 110)
    ∷ (codes "27", 245)
    ∷ (codes "21", 235)
    ∷ (codes "7", 305)
    ∷ (codes "28", 115)
    ∷ (codes "4", 240)
    ∷ (codes "10", 130)
    ∷ (codes "9", 320)
    ∷ (codes "17", 290)
    ∷ (codes "31", 275)
    ∷ (codes "32", 320)
    ∷ (codes "20", 280)
    ∷ (codes "35", 125)
    ∷ (codes "18", 260)
    ∷ (codes "34", 300)
    ∷ (codes "19", 245)
    ∷ (codes "33", 260)
    ∷ (codes "16", 260)
    ∷ (codes "22", 270)
    ∷ (codes "0", 310)
    ∷ (codes "24", 305)
    ∷ (codes "5", 295)
    ∷ (codes "8", 255)
    ∷ (codes "3", 290)
    ∷ (codes "6", 285)
    ∷ (codes "25", 260)
    ∷ (codes "13", 230)
    ∷ (codes "1", 280)
    ∷ (codes "29", 115)
    ∷ (codes "2", 250)
    ∷ (codes "26", 260)
    ∷ (codes "12", 240)
    ∷ []

abbrev pub geant_no_delay : Dict Text ℕ
geant_no_delay =
    (codes "15", 210)
    ∷ (codes "11", 210)
    ∷ (codes "14", 210)
    ∷ (codes "23", 110)
    ∷ (codes "30", 110)
    ∷ (codes "27", 210)
    ∷ (codes "21", 110)
    ∷ (codes "7", 210)
    ∷ (codes "28", 110)
    ∷ (codes "4", 210)
    ∷ (codes "10", 110)
    ∷ (codes "9", 210)
    ∷ (codes "17", 210)
    ∷ (codes "31", 110)
    ∷ (codes "32", 210)
    ∷ (codes "20", 210)
    ∷ (codes "35", 110)
    ∷ (codes "18", 210)
    ∷ (codes "34", 210)
    ∷ (codes "19", 110)
    ∷ (codes "33", 110)
    ∷ (codes "16", 210)
    ∷ (codes "22", 110)
    ∷ (codes "0", 210)
    ∷ (codes "24", 210)
    ∷ (codes "5", 210)
    ∷ (codes "8", 210)
    ∷ (codes "3", 210)
    ∷ (codes "6", 210)
    ∷ (codes "25", 110)
    ∷ (codes "13", 210)
    ∷ (codes "1", 210)
    ∷ (codes "29", 110)
    ∷ (codes "2", 210)
    ∷ (codes "26", 110)
    ∷ (codes "12", 110)
    ∷ []

abbrev pub geant_no_link : Dict Text ℕ
geant_no_link =
    (codes "15", 410)
    ∷ (codes "11", 410)
    ∷ (codes "14", 410)
    ∷ (codes "23", 215)
    ∷ (codes "30", 210)
    ∷ (codes "27", 410)
    ∷ (codes "21", 215)
    ∷ (codes "7", 410)
    ∷ (codes "28", 210)
    ∷ (codes "4", 410)
    ∷ (codes "10", 215)
    ∷ (codes "9", 415)
    ∷ (codes "17", 410)
    ∷ (codes "31", 220)
    ∷ (codes "32", 410)
    ∷ (codes "20", 410)
    ∷ (codes "35", 210)
    ∷ (codes "18", 410)
    ∷ (codes "34", 410)
    ∷ (codes "19", 215)
    ∷ (codes "33", 215)
    ∷ (codes "16", 410)
    ∷ (codes "22", 210)
    ∷ (codes "0", 410)
    ∷ (codes "24", 410)
    ∷ (codes "5", 410)
    ∷ (codes "8", 410)
    ∷ (codes "3", 410)
    ∷ (codes "6", 410)
    ∷ (codes "25", 220)
    ∷ (codes "13", 410)
    ∷ (codes "1", 410)
    ∷ (codes "29", 210)
    ∷ (codes "2", 410)
    ∷ (codes "26", 220)
    ∷ (codes "12", 215)
    ∷ []

abbrev pub geant_all_no_spt : Dict Text ℕ
geant_all_no_spt =
    (codes "15", 260)
    ∷ (codes "11", 245)
    ∷ (codes "14", 280)
    ∷ (codes "23", 250)
    ∷ (codes "30", 110)
    ∷ (codes "27", 245)
    ∷ (codes "21", 235)
    ∷ (codes "7", 305)
    ∷ (codes "28", 115)
    ∷ (codes "4", 245)
    ∷ (codes "10", 135)
    ∷ (codes "9", 325)
    ∷ (codes "17", 290)
    ∷ (codes "31", 275)
    ∷ (codes "32", 320)
    ∷ (codes "20", 280)
    ∷ (codes "35", 125)
    ∷ (codes "18", 260)
    ∷ (codes "34", 300)
    ∷ (codes "19", 245)
    ∷ (codes "33", 260)
    ∷ (codes "16", 260)
    ∷ (codes "22", 270)
    ∷ (codes "0", 310)
    ∷ (codes "24", 305)
    ∷ (codes "5", 295)
    ∷ (codes "8", 260)
    ∷ (codes "3", 290)
    ∷ (codes "6", 285)
    ∷ (codes "25", 260)
    ∷ (codes "13", 230)
    ∷ (codes "1", 280)
    ∷ (codes "29", 115)
    ∷ (codes "2", 250)
    ∷ (codes "26", 260)
    ∷ (codes "12", 240)
    ∷ []
